-- ===== src/Shared/Fault.antt =====
-- crates/shared/src/fault.rs: deterministic fault injection. The rules and the call counters are
-- keyed by the point's name, newest first in an association list. A rate is an f32: a finite one
-- is a whole number of 2^-149, which every f32 is.
pub mod Laws
pub mod Config
use text.Mathlib.Text.{◌==◌ as str_eq}
use financial_data_platform.Prelude.{
  ℕ, zero, suc, ◌+◌, ◌-◌, ◌*◌, ◌/◌, ◌%◌, ◌^◌, bit_xor, Bool, true, false, String, Option, none,
  some, List, [], ◌∷◌, ltb, leb, ◌==◌, if◌then◌else◌,
}
use financial_data_platform.Prelude.Int.{ℤ, pos, negsuc}

pub data Rate : Type 0 where
  nan : Rate
  positive_infinity negative_infinity : Rate
  finite : ℤ → Rate

pub data Rule : Type 0 where
  always never once : Rule
  every : ℕ → Rule
  rate : Rate → Rule

abbrev pub Rules : Type 0
Rules = List (String × Rule)

abbrev pub Counters : Type 0
Counters = List (String × ℕ)

abbrev pub same_text : String → String → Bool
same_text s t = str_eq s t

unfoldable pub lookup : {V : Type 0} → String → List (String × V) → Option V
lookup k [] = none
lookup k ((j, v) ∷ m) = if same_text j k then some v else lookup k m

abbrev pub count_of : String → Counters → ℕ
count_of k m = elim (lookup k m) [ none ↦ 0 | some n ↦ n ]

-- `next_call_count`: the counter after the call, a number without a bound; the u64 of the code
-- overflows after 2^64 calls.
unfoldable pub next_call_count : String → Counters → ℕ × Counters
next_call_count point m = let n = count_of point m + 1 in (n, (point, n) ∷ m)

abbrev u64_mod : ℕ
u64_mod = 2 ^ 64

-- `x.rotate_left(7)`
abbrev rotate_left_7 : ℕ → ℕ
rotate_left_7 x = (x * 2 ^ 7) % u64_mod + x / 2 ^ 57

-- Byte `i` of a 128-bit identifier, most significant first.
abbrev pub byte_of : ℕ → ℕ → ℕ
byte_of id i = (id / 2 ^ (8 * (15 - i))) % 256

-- The loop of `stable_u64_from_uuid`, over the indices left.
mix_bytes : ℕ → ℕ → ℕ → ℕ → ℕ
mix_bytes zero i id x = x
mix_bytes (suc left) i id x =
    mix_bytes left (i + 1) id
      (bit_xor (rotate_left_7 (bit_xor x (byte_of id i * 2 ^ (8 * (i % 8))))) 0x9E3779B97F4A7C15)

pub stable_u64_from_uuid : ℕ → ℕ
unfolding mix_bytes
stable_u64_from_uuid id = mix_bytes 16 0 id 0

-- `(u >> 11) / 2^53 < p` with `p` a number of 2^-149: both sides are exact in f64.
abbrev pub below_rate : ℕ → ℕ → Bool
below_rate u p = ltb ((u / 2 ^ 11) * 2 ^ 96) p

-- 1.0
abbrev pub one : ℕ
one = 2 ^ 149

-- The rate branch: clamp to [0, 1], the two early returns, then the comparison. A NaN stays a NaN
-- under `clamp` and is below, above and equal to nothing.
unfoldable pub rate_fails : String → Rate → Option ℕ → Counters → Bool × Counters
unfolding next_call_count
rate_fails point nan (some id) m = (false, m)
rate_fails point nan none m = (false, (next_call_count point m).1)
rate_fails point positive_infinity id m = (true, m)
rate_fails point negative_infinity id m = (false, m)
rate_fails point (finite (negsuc n)) id m = (false, m)
rate_fails point (finite (pos p)) id m =
    if p == 0 then (false, m) else if leb one p then (true, m) else elim id [
      | some i ↦ (below_rate (stable_u64_from_uuid i) p, m)
      | none ↦ let (n, m') = next_call_count point m in (below_rate n p, m')
    ]

-- The `match rule`; no rule never fails.
unfoldable pub apply_rule : String → Option ℕ → Counters → Option Rule → Bool × Counters
unfolding rate_fails next_call_count
apply_rule point id m none = (false, m)
apply_rule point id m (some always) = (true, m)
apply_rule point id m (some never) = (false, m)
apply_rule point id m (some once) = let (n, m') = next_call_count point m in (n == 1, m')
apply_rule point id m (some (every k)) = let (n, m') = next_call_count point m in (n % k == 0, m')
apply_rule point id m (some (rate p)) = rate_fails point p id m

-- `should_fail`
unfoldable pub should_fail : Rules → String → Option ℕ → Counters → Bool × Counters
unfolding apply_rule lookup
should_fail rules point correlation_id m = apply_rule point correlation_id m (lookup point rules)
