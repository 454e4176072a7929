-- ===== src/Shared/Fault/Laws.antt =====
-- Laws of the fault injector: what a rule answers on the calls of a fresh process.
use text.Mathlib.TextPositions.{eq_refl}
use financial_data_platform.Prelude.{
  ℕ, zero, suc, ◌+◌, ◌/◌, ◌%◌, ◌^◌, ◌<◌, ◌≡◌, refl, ◌∙◌, ap, true, String, Option, none, some, [],
  arith, ◌==◌,
}
use financial_data_platform.Prelude.Int.{pos}
use financial_data_platform.Shared.Fault.{
  Rules, Counters, Rule, once, every, rate, finite, one, apply_rule, lookup, next_call_count,
  count_of, should_fail, rate_fails,
}

-- The counters after `n` calls of one point.
unfoldable pub after_calls : Rules → String → Option ℕ → ℕ → Counters → Counters
after_calls rules point id zero m = m
after_calls rules point id (suc n) m =
    (should_fail rules point id (after_calls rules point id n m)).1

count_of-next_call_count :
    (point : String) (m : Counters)
    → count_of point (next_call_count point m).1 ≡ count_of point m + 1
unfolding next_call_count lookup
count_of-next_call_count point m = rw (count_of, eq_refl point) refl

-- A rule that counts every call of its point.
abbrev Counts : Rule → Type 0
Counts r =
    (point : String) (id : Option ℕ) (m : Counters)
    → (apply_rule point id m (some r)).1 ≡ (next_call_count point m).1

module _ (rules : Rules) (point : String) (id : Option ℕ) (r : Rule) (counts : Counts r)
    (h : lookup point rules ≡ some r) where
  ruled : (m : Counters) → should_fail rules point id m ≡ apply_rule point id m (some r)
  unfolding should_fail
  ruled m = ap (apply_rule point id m) h

  count_of-after_calls : (n : ℕ) → count_of point (after_calls rules point id n []) ≡ n
  unfolding after_calls lookup
  count_of-after_calls zero = refl
  count_of-after_calls (suc n) =
      ap (λ p. count_of point p.1) (ruled (after_calls rules point id n []))
      ∙ ap (count_of point) (counts point id (after_calls rules point id n []))
      ∙ count_of-next_call_count point (after_calls rules point id n [])
      ∙ ground (arith, count_of-after_calls n)

-- `every:k` fails the k-th call, the 2k-th and so on: the call after `n` others in a fresh process
-- fails exactly when `k` divides `n + 1`.
pub should_fail-every :
    (rules : Rules) (point : String) (id : Option ℕ) (k n : ℕ)
    → lookup point rules ≡ some (every k)
    → (should_fail rules point id (after_calls rules point id n [])).0 ≡ ((n + 1) % k == 0)
unfolding apply_rule next_call_count
should_fail-every rules point id k n h =
    ap (λ p. p.0)
      (ruled rules point id (every k) (λ _ _ _. refl) h (after_calls rules point id n []))
    ∙ ap (λ c. (c + 1) % k == 0) (count_of-after_calls rules point id (every k) (λ _ _ _. refl) h n)

-- `once` fails the first call of its point in a fresh process, and no later one.
pub should_fail-once :
    (rules : Rules) (point : String) (id : Option ℕ) (n : ℕ)
    → lookup point rules ≡ some once
    → (should_fail rules point id (after_calls rules point id n [])).0 ≡ (n == 0)
unfolding apply_rule next_call_count
should_fail-once rules point id n h =
    ap (λ p. p.0) (ruled rules point id once (λ _ _ _. refl) h (after_calls rules point id n []))
    ∙ ap (λ c. (c + 1) == 1) (count_of-after_calls rules point id once (λ _ _ _. refl) h n)
    ∙ ground arith

-- The rate branch reads the bits of the counter above the eleventh.
div-small : (n : ℕ) → n < 2048 → n / 2 ^ 11 ≡ 0
div-small n h = omega arith

-- A positive rate below one, at a point that gives no correlation id, fails every one of the first
-- 2047 calls of a process.
pub should_fail-rate_none :
    (rules : Rules) (point : String) (p : ℕ) (m : Counters)
    → lookup point rules ≡ some (rate (finite (pos p)))
    → 0 < p
    → p < one
    → count_of point m + 1 < 2048
    → (should_fail rules point none m).0 ≡ true
unfolding should_fail apply_rule rate_fails next_call_count
should_fail-rate_none rules point p m h positive small few =
    ap (λ o. (apply_rule point none m o).0) h ∙ ground (arith, div-small (count_of point m + 1) few)
