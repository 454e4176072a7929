-- ===== src/Shared/Tests.antt =====
-- Tests of the shared kernel, and its theorems at concrete values.
use financial_data_platform.Prelude.{
  ◌<◌, ◌≡◌, ◌≢◌, ◌⊎◌, refl, true, false, none, some, [], ◌∷◌, ok, arith, ◌≤◌, ◌+◌, ◌%◌, ◌==◌,
}
use financial_data_platform.Prelude.{Bool, Option, ◌&&◌, if◌then◌else◌}
use financial_data_platform.Prelude.Int.{ℤ, pos, negsuc, ◌+ℤ◌, ◌-ℤ◌, ltb_ℤ}
use financial_data_platform.Shared.Decimal.{Decimal, Arithmetic}
use financial_data_platform.Shared.Domain.{
  pending, processing, settled, failed, reversed, can_transition_to, Transaction, transfer_type,
  usd, transition, next_i64, Account, credit,
}
use financial_data_platform.Shared.Domain.Laws.{attempts, rank, transition-cases, scaled}
use financial_data_platform.Shared.Fault.{
  one, always, Rules, every, once, rate, finite, lookup, count_of, should_fail,
}
use Prim.Native.Char.{code}
use financial_data_platform.Shared.Fault.Config.{
  Texts, config, config-every, split, split_once, trim_start, trim_end, rule_of, parse_u32, digits,
  add_parts,
}
use financial_data_platform.Shared.Fault.Laws.{
  after_calls, should_fail-every, should_fail-rate_none,
}

abbrev submitted : Transaction
submitted = record {
  id = 5;
  idempotency_key = "key";
  transaction_type = transfer_type;
  status = pending;
  amount = pos 250000;
  currency = usd;
  source_account_id = some 1;
  dest_account_id = some 2;
  description = none;
  metadata = "{}";
  request_hash = "";
  submitted_at = 0;
  processed_at = none;
  settled_at = none;
  version = pos 1;
  worker_id = none;
  retry_count = pos 0;
  last_error = none;
  regulatory_flags = "{}";
  risk_score = none;
  compliance_checked = false;
}

abbrev rejected : Transaction
rejected = record submitted { status = failed }

abbrev finished : Transaction
finished = record submitted { status = settled }

abbrev wallet : Account
wallet = record {
  id = 1;
  external_id = "wallet";
  owner_id = "owner";
  currency = usd;
  balance = scaled 4 (pos 400000);
  version = pos 3;
  is_active = true;
  created_at = 0;
  updated_at = 0;
}

-- The diagram above the enum has an arrow from PENDING to FAILED, which the method refuses.
pending_failed : can_transition_to pending failed ≡ false
unfolding can_transition_to
pending_failed = refl

-- The whole life of a transaction that is settled and reversed.
life : (attempts (processing ∷ settled ∷ reversed ∷ []) submitted).status ≡ reversed
unfolding attempts transition can_transition_to
life = refl

transition-cases_example :
    ((can_transition_to pending processing ≡ true)
      × ((transition submitted processing).0 ≡ ok tt)
      × ((transition submitted processing).1.status ≡ processing)
      × ((transition submitted processing).1.version ≡ next_i64 (pos 1))
      × (rank pending ≤ rank processing))
    ⊎ ((can_transition_to pending processing ≡ false)
        × ((transition submitted processing).0 ≢ ok tt)
        × ((transition submitted processing).1 ≡ submitted))
transition-cases_example = transition-cases submitted processing

-- An arithmetic on values of one scale, by the mantissas.
abbrev is_small : ℤ → Bool
is_small m =
    ltb_ℤ m (pos 79228162514264337593543950336) && ltb_ℤ (negsuc 79228162514264337593543950335) m

abbrev alike : Decimal → Decimal → ℤ → Option Decimal
alike x y m =
    if (x.scale == y.scale) && is_small m
    then some (record { mantissa = m; scale = x.scale })
    else none

abbrev one_scale : Arithmetic
one_scale = record {
  add = λ x y. alike x y (x.mantissa +ℤ y.mantissa);
  sub = λ x y. alike x y (x.mantissa -ℤ y.mantissa);
  less = λ x y. ltb_ℤ x.mantissa y.mantissa;
  text = λ _. "decimal";
}

-- Beyond 96 bits there is no result.
too_much :
    credit one_scale wallet (record { mantissa = pos 79228162514264337593543950335; scale = 4 })
    ≡ none
unfolding credit ◌+ℤ◌
too_much = refl

abbrev rules : Rules
rules =
    ("fraud.hang", once)
    ∷ ("processor.transient", every 3)
    ∷ ("dlq.write", rate (finite (pos 1)))
    ∷ []

found_every : lookup "processor.transient" rules ≡ some (every 3)
unfolding lookup
found_every = refl

found_once : lookup "fraud.hang" rules ≡ some once
unfolding lookup
found_once = refl

found_rate : lookup "dlq.write" rules ≡ some (rate (finite (pos 1)))
unfolding lookup
found_rate = refl

-- The sixth call.
should_fail-every_example :
    (should_fail rules "processor.transient"
      (some 9)
      (after_calls rules "processor.transient" (some 9) 5 [])).0
    ≡ ((5 + 1) % 3 == 0)
should_fail-every_example = should_fail-every rules "processor.transient" (some 9) 3 5 found_every

no_calls : count_of "dlq.write" [] ≡ 0
unfolding lookup
no_calls = refl

-- The smallest positive rate of all.
should_fail-rate_none_example : (should_fail rules "dlq.write" none []).0 ≡ true
should_fail-rate_none_example =
    should_fail-rate_none rules "dlq.write" 1 [] found_rate (ground arith) (ground arith)
      (ground (arith, no_calls))

-- The documented settings.
abbrev texts : Texts
texts = record { is_whitespace = λ c. code c == 32; parse_f32 = λ _. some (finite (pos one)) }

documented :
    (config texts "processor.transient=every:3,fraud.hang=once"
      ≡ ("fraud.hang", once) ∷ ("processor.transient", every 3) ∷ [])
    × (config texts " dlq.write = always , ,bad,x=every:0, y=rate:1 "
        ≡ ("y", rate (finite (pos one))) ∷ ("dlq.write", always) ∷ [])
unfolding config split split_once trim_start trim_end rule_of parse_u32 digits add_parts
documented = (refl, refl)

set_to_three : lookup "a" (config texts "a=every:3") ≡ some (every 3)
unfolding config split split_once trim_start trim_end rule_of parse_u32 digits add_parts lookup
set_to_three = refl

config-every_example : 0 < 3
config-every_example = config-every texts "a=every:3" "a" 3 set_to_three
