-- ===== src/Shared/Fault/Config.antt =====
-- The reading of FDP_FAULTS. Which characters are white space and what an f32 literal is worth come
-- from the standard library's tables.
use Prim.Native.Char.{Char, code}
use Prim.Native.String.{len, slice}
use text.Mathlib.Text.{starts_with}
use financial_data_platform.Prelude.{
  ℕ, ◌+◌, ◌-◌, ◌*◌, ◌^◌, ◌<◌, ⊤, ◌≡◌, subst, Bool, Bool-cases, inl, inr, true, false, ◌&&◌, String,
  Option, some, none, List, [], ◌∷◌, arith, leb, ltb, ◌==◌, if◌then◌else◌, All,
}
use financial_data_platform.Shared.Fault.{
  Rate, Rule, always, never, once, every, rate, Rules, same_text, lookup,
}

pub record Texts : Type 0 where
  pub is_whitespace : Char → Bool
  pub parse_f32 : String → Option Rate

abbrev cons_first : Char → List String → List String
cons_first c [] = (String.◌∷◌ c String.[]) ∷ []
cons_first c (w ∷ ws) = (String.◌∷◌ c w) ∷ ws

-- `raw.split(',')`, by the number of the character.
unfoldable pub split : ℕ → String → List String
split sep String.[] = String.[] ∷ []
split sep (String.◌∷◌ c s) =
    let rest = split sep s in if code c == sep then String.[] ∷ rest else cons_first c rest

abbrev extend : Char → Option (String × String) → Option (String × String)
extend c none = none
extend c (some (k, v)) = some (String.◌∷◌ c k, v)

-- `part.split_once('=')`
unfoldable pub split_once : ℕ → String → Option (String × String)
split_once sep String.[] = none
split_once sep (String.◌∷◌ c s) =
    let rest = split_once sep s in if code c == sep then some (String.[], s) else extend c rest

unfoldable pub trim_start : (Char → Bool) → String → String
trim_start space String.[] = String.[]
trim_start space (String.◌∷◌ c s) =
    let rest = trim_start space s in if space c then rest else String.◌∷◌ c s

abbrev keep_end : Bool → Char → String → String
keep_end true c String.[] = String.[]
keep_end true c (String.◌∷◌ d s) = String.◌∷◌ c (String.◌∷◌ d s)
keep_end false c s = String.◌∷◌ c s

unfoldable pub trim_end : (Char → Bool) → String → String
trim_end space String.[] = String.[]
trim_end space (String.◌∷◌ c s) = keep_end (space c) c (trim_end space s)

abbrev pub trim : (Char → Bool) → String → String
trim space s = trim_end space (trim_start space s)

-- The decimal digits of a text, after a number.
unfoldable pub digits : ℕ → String → Option ℕ
digits n String.[] = some n
digits n (String.◌∷◌ c s) =
    let rest = digits (n * 10 + (code c - 48)) s in
    if leb 48 (code c) && leb (code c) 57 then rest else none

abbrev within_u32 : Option ℕ → Option ℕ
within_u32 none = none
within_u32 (some n) = if ltb n (2 ^ 32) then some n else none

abbrev digits_only : String → Option ℕ
digits_only String.[] = none
digits_only (String.◌∷◌ c s) = within_u32 (digits 0 (String.◌∷◌ c s))

-- `parse::<u32>().ok()`, which takes a leading plus sign.
unfoldable pub parse_u32 : String → Option ℕ
unfolding digits
parse_u32 String.[] = none
parse_u32 (String.◌∷◌ c s) = if code c == b'+' then digits_only s else digits_only (String.◌∷◌ c s)

-- `.filter(|n| *n > 0).map(Rule::Every)`
abbrev pub positive_every : Option ℕ → Option Rule
positive_every none = none
positive_every (some n) = if ltb 0 n then some (every n) else none

abbrev pub some_rate : Option Rate → Option Rule
some_rate none = none
some_rate (some p) = some (rate p)

-- The `match val`.
unfoldable pub rule_of : Texts → String → Option Rule
unfolding parse_u32
rule_of texts val =
    if same_text val "always"
    then some always
    else if same_text val "never"
    then some never
    else if same_text val "once"
    then some once
    else if starts_with val "every:"
    then positive_every (parse_u32 (slice val 6 (len val)))
    else if starts_with val "rate:"
    then some_rate (texts.parse_f32 (slice val 5 (len val)))
    else none

-- `cfg.rules.insert`, where there is a rule.
abbrev pub insert_rule : String → Option Rule → Rules → Rules
insert_rule key none rules = rules
insert_rule key (some r) rules = (key, r) ∷ rules

abbrev pub add_assignment : Texts → Option (String × String) → Rules → Rules
add_assignment texts none rules = rules
add_assignment texts (some (k, v)) rules =
    insert_rule (trim texts.is_whitespace k) (rule_of texts (trim texts.is_whitespace v)) rules

-- The loop over the parts.
unfoldable pub add_parts : Texts → List String → Rules → Rules
unfolding rule_of split_once trim_start trim_end
add_parts texts [] rules = rules
add_parts texts (w ∷ ws) rules =
    let part = trim texts.is_whitespace w in
    add_parts texts ws
      (if len part == 0 then rules else add_assignment texts (split_once b'=' part) rules)

-- `config`, from the variable's text; a variable that is not set is the empty text.
unfoldable pub config : Texts → String → Rules
unfolding add_parts split
config texts raw = add_parts texts (split b',' raw) []

abbrev IsPositive : Rule → Type 0
IsPositive (every n) = 0 < n
IsPositive _ = ⊤

abbrev Fits : String × Rule → Type 0
Fits p = IsPositive p.1

rule_of-Fits :
    (texts : Texts) (key val : String) (rules : Rules)
    → All Fits rules
    → All Fits (insert_rule key (rule_of texts val) rules)
unfolding rule_of
rule_of-Fits texts key val rules h = ground (arith, h)

add_assignment-Fits :
    (texts : Texts) (o : Option (String × String)) (rules : Rules)
    → All Fits rules
    → All Fits (add_assignment texts o rules)
add_assignment-Fits texts none rules h = h
add_assignment-Fits texts (some (k, v)) rules h = rule_of-Fits texts _ _ rules h

add_parts-Fits :
    (texts : Texts) (ws : List String) (rules : Rules)
    → All Fits rules
    → All Fits (add_parts texts ws rules)
unfolding add_parts
add_parts-Fits texts [] rules h = h
add_parts-Fits texts (w ∷ ws) rules h = add_parts-Fits texts ws _ (
    by_empty (len (trim texts.is_whitespace w) == 0) _
      (add_assignment-Fits texts (split_once b'=' (trim texts.is_whitespace w)) rules h))
  where
    by_empty : (b : Bool) (more : Rules) → All Fits more → All Fits (if b then rules else more)
    by_empty true more m = h
    by_empty false more m = m

lookup-Fits :
    (point : String) (r : Rule) (rules : Rules)
    → All Fits rules
    → lookup point rules ≡ some r
    → IsPositive r
unfolding lookup
lookup-Fits point r [] h e = absurd (cc)
lookup-Fits point r ((j, q) ∷ rules) (f, h) e = elim (Bool-cases (same_text j point)) [
  | inl same ↦ (let it : q ≡ r = ground (arith, same, e) in subst IsPositive it f)
  | inr other ↦ lookup-Fits point r rules h (ground (arith, other, e))
]

-- A rule `every:N` that FDP_FAULTS sets has a positive N, so the remainder by it is defined.
pub config-every :
    (texts : Texts) (raw point : String) (n : ℕ)
    → lookup point (config texts raw) ≡ some (every n)
    → 0 < n
unfolding config
config-every texts raw point n e =
    lookup-Fits point (every n) _ (add_parts-Fits texts (split b',' raw) [] tt) e
