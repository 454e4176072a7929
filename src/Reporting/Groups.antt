-- ===== src/Reporting/Groups.antt =====
-- What the queries use of SQL: COUNT, SUM, GROUP BY, ORDER BY … DESC and LIMIT.
use financial_data_platform.Prelude.{ℕ, suc, ◌-◌, Bool, List, [], ◌∷◌, ◌==◌, if◌then◌else◌}
use financial_data_platform.Prelude.Int.{ℤ, pos, ◌+ℤ◌, leb_ℤ}
use financial_data_platform.Shared.Domain.{
  Currency, usd, eur, gbp, jpy, chf, cad, aud, TransactionType, credit_type, debit_type,
  transfer_type, fee_type, reversal_type, adjustment_type,
}

-- A number for each value of an enum, by which values are compared.
abbrev pub currency_code : Currency → ℕ
currency_code usd = 0
currency_code eur = 1
currency_code gbp = 2
currency_code jpy = 3
currency_code chf = 4
currency_code cad = 5
currency_code aud = 6

abbrev pub type_code : TransactionType → ℕ
type_code credit_type = 0
type_code debit_type = 1
type_code transfer_type = 2
type_code fee_type = 3
type_code reversal_type = 4
type_code adjustment_type = 5

module _ {A : Type 0} where
  abbrev pub sum_of : (A → ℤ) → List A → ℤ
  sum_of value [] = pos 0
  sum_of value (x ∷ xs) = value x +ℤ sum_of value xs

  abbrev pub count_where : (A → Bool) → List A → ℕ
  count_where test [] = 0
  count_where test (x ∷ xs) = let rest = count_where test xs in if test x then suc rest else rest

  abbrev pub insert_desc : (A → ℤ) → A → List A → List A
  insert_desc value x [] = x ∷ []
  insert_desc value x (y ∷ ys) =
      let rest = insert_desc value x ys in
      if leb_ℤ (value y) (value x) then x ∷ y ∷ ys else y ∷ rest

  abbrev pub order_desc : (A → ℤ) → List A → List A
  order_desc value [] = []
  order_desc value (x ∷ xs) = insert_desc value x (order_desc value xs)

  abbrev pub take : ℕ → List A → List A
  take n [] = []
  take n (x ∷ xs) = let rest = take (n - 1) xs in if n == 0 then [] else x ∷ rest

module _ {K : Type 0} (code : K → ℕ) where
  -- Adds to the sum of a key, which is new or not.
  abbrev pub add_to : K → ℤ → List (K × ℤ) → List (K × ℤ)
  add_to k v [] = (k, v) ∷ []
  add_to k v ((j, w) ∷ g) =
      let rest = add_to k v g in if code j == code k then (j, w +ℤ v) ∷ g else (j, w) ∷ rest

  -- `SELECT key, SUM(value) … GROUP BY key`
  abbrev pub group_by : {A : Type 0} → (A → K) → (A → ℤ) → List A → List (K × ℤ)
  group_by key value [] = []
  group_by key value (x ∷ xs) = add_to (key x) (value x) (group_by key value xs)
