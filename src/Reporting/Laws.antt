-- ===== src/Reporting/Laws.antt =====
-- What the reports say of the rows.
use financial_data_platform.Prelude.{
  ℕ, ◌≡◌, refl, sym, subst, ap, ◌∙◌, true, List, [], ◌∷◌, arith, ◌==◌, if◌then◌else◌, Bool, ◌&&◌,
  ok,
}
use financial_data_platform.Prelude.Int.{ℤ, pos, ◌+ℤ◌, int_laws}
use financial_data_platform.Prelude.Table.{Table}
use financial_data_platform.Shared.Domain.{
  TransactionStatus, pending, processing, settled, failed, reversed, Currency, TransactionType,
}
use financial_data_platform.Store.Tables.{TransactionRow, Db}
use financial_data_platform.Reporting.Groups.{
  currency_code, type_code, sum_of, count_where, add_to, group_by,
}
use financial_data_platform.Reporting.{
  is_settled, is_failed, summarise, Calendar, DailySummary, daily, select_summary,
}

module _ {K : Type 0} (code : K → ℕ) where
  -- The sum that a group has for the key with a code.
  abbrev amount_of : ℕ → List (K × ℤ) → ℤ
  amount_of c [] = pos 0
  amount_of c ((j, w) ∷ g) = let rest = amount_of c g in if code j == c then w +ℤ rest else rest

  -- The sum over the rows that have it.
  abbrev matching : {A : Type 0} → ℕ → (A → K) → (A → ℤ) → List A → ℤ
  matching c key value [] = pos 0
  matching c key value (x ∷ xs) =
      let rest = matching c key value xs in if code (key x) == c then value x +ℤ rest else rest

  amount_of-add_to :
      (c : ℕ) (k : K) (v : ℤ) (g : List (K × ℤ))
      → amount_of c (add_to code k v g)
        ≡ (if code k == c then v +ℤ amount_of c g else amount_of c g)
  amount_of-add_to c k v [] = refl
  amount_of-add_to c k v ((j, w) ∷ g) = grind (int_laws, amount_of-add_to c k v g)

  amount_of-group_by :
      {A : Type 0} (c : ℕ) (key : A → K) (value : A → ℤ) (xs : List A)
      → amount_of c (group_by code key value xs) ≡ matching c key value xs
  amount_of-group_by c key value [] = refl
  amount_of-group_by c key value (x ∷ xs) =
      amount_of-add_to c (key x) (value x) (group_by code key value xs)
      ∙ ap (λ n. if code (key x) == c then value x +ℤ n else n) (amount_of-group_by c key value xs)

  total_added :
      (k : K) (v : ℤ) (g : List (K × ℤ))
      → sum_of (λ p. p.1) (add_to code k v g) ≡ v +ℤ sum_of (λ p. p.1) g
  total_added k v [] = refl
  total_added k v ((j, w) ∷ g) = grind (int_laws, total_added k v g)

  sum_of-group_by :
      {A : Type 0} (key : A → K) (value : A → ℤ) (xs : List A)
      → sum_of (λ p. p.1) (group_by code key value xs) ≡ sum_of value xs
  sum_of-group_by key value [] = refl
  sum_of-group_by key value (x ∷ xs) =
      total_added (key x) (value x) (group_by code key value xs)
      ∙ ap (λ n. value x +ℤ n) (sum_of-group_by key value xs)

sum_of-ones : {A : Type 0} (xs : List A) → sum_of (λ _. pos 1) xs ≡ pos (count_where (λ _. true) xs)
sum_of-ones [] = refl
sum_of-ones (x ∷ xs) = grind (int_laws, sum_of-ones xs)

-- The sum over the rows of a table that satisfy a test, in the integers.
abbrev sum_over : (TransactionRow → Bool) → (TransactionRow → ℤ) → Table TransactionRow → ℤ
sum_over test value [] = pos 0
sum_over test value ((_, t) ∷ rows) =
    let rest = sum_over test value rows in if test t then value t +ℤ rest else rest

abbrev status_code : TransactionStatus → ℕ
status_code pending = 0
status_code processing = 1
status_code settled = 2
status_code failed = 3
status_code reversed = 4

module _ (calendar : Calendar) (date : ℕ) where
  abbrev on_day : TransactionRow → Bool
  on_day t = calendar.date_of t.submitted_at == date

  daily-sum_of :
      (value : TransactionRow → ℤ) (rows : Table TransactionRow)
      → sum_of value (daily calendar date rows) ≡ sum_over on_day value rows
  daily-sum_of value [] = refl
  daily-sum_of value ((id, t) ∷ rows) = grind (arith, daily-sum_of value rows)

  daily-matching :
      {K : Type 0} (code : K → ℕ) (c : ℕ) (key : TransactionRow → K) (value : TransactionRow → ℤ)
      (rows : Table TransactionRow)
      → matching code c key value (daily calendar date rows)
        ≡ sum_over (λ t. on_day t && (code (key t) == c)) value rows
  daily-matching code c key value [] = refl
  daily-matching code c key value ((id, t) ∷ rows) =
      grind (arith, daily-matching code c key value rows)

count_where-ones :
    (test : TransactionRow → Bool) (c : ℕ) (rows : List TransactionRow)
    → ((t : TransactionRow) → test t ≡ (status_code t.status == c))
    → pos (count_where test rows) ≡ matching status_code c (λ t. t.status) (λ _. pos 1) rows
count_where-ones test c [] same = refl
count_where-ones test c (t ∷ rows) same =
    grind (int_laws, same t, count_where-ones test c rows same)

-- The fields of the summary, by sums over the table.
abbrev pub Counted : Calendar → (date : ℕ) → Db → Currency → TransactionType → DailySummary → Type 0
Counted calendar date db currency type s =
    (pos s.total_transactions ≡ sum_over (on_day calendar date) (λ _. pos 1) db.transactions)
    × (s.total_volume ≡ sum_over (on_day calendar date) (λ t. t.amount) db.transactions)
    × (pos s.settled_count
        ≡ sum_over (λ t. on_day calendar date t && (status_code t.status == 2)) (λ _. pos 1)
            db.transactions)
    × (pos s.failed_count
        ≡ sum_over (λ t. on_day calendar date t && (status_code t.status == 3)) (λ _. pos 1)
            db.transactions)
    × (amount_of currency_code (currency_code currency) s.by_currency
        ≡ sum_over
            (λ t. on_day calendar date t && (currency_code t.currency == currency_code currency))
            (λ t. t.amount) db.transactions)
    × (amount_of type_code (type_code type) s.by_type
        ≡ sum_over (λ t. on_day calendar date t && (type_code t.transaction_type == type_code type))
            (λ _. pos 1) db.transactions)
    × (sum_of (λ p. p.1) s.by_currency ≡ s.total_volume)
    × (sum_of (λ p. p.1) s.by_type ≡ pos s.total_transactions)

settled_code : (t : TransactionRow) → is_settled t ≡ (status_code t.status == 2)
settled_code t = ground arith

failed_code : (t : TransactionRow) → is_failed t ≡ (status_code t.status == 3)
failed_code t = ground arith

summarise-Counted :
    (calendar : Calendar) (date : ℕ) (db : Db) (currency : Currency) (type : TransactionType)
    → Counted calendar date db currency type
        (summarise (calendar.date_text date) (daily calendar date db.transactions))
unfolding summarise
summarise-Counted calendar date db currency type = (
  sym (sum_of-ones rows) ∙ daily-sum_of calendar date (λ _. pos 1) db.transactions,
  daily-sum_of calendar date (λ t. t.amount) db.transactions,
  count_where-ones is_settled 2 rows settled_code
      ∙ daily-matching calendar date status_code 2 (λ t. t.status) (λ _. pos 1) db.transactions,
  count_where-ones is_failed 3 rows failed_code
      ∙ daily-matching calendar date status_code 3 (λ t. t.status) (λ _. pos 1) db.transactions,
  amount_of-group_by currency_code (currency_code currency) (λ t. t.currency) (λ t. t.amount) rows
      ∙ daily-matching calendar date currency_code (currency_code currency) (λ t. t.currency)
          (λ t. t.amount) db.transactions,
  amount_of-group_by type_code (type_code type) (λ t. t.transaction_type) (λ _. pos 1) rows
      ∙ daily-matching calendar date type_code (type_code type) (λ t. t.transaction_type)
          (λ _. pos 1) db.transactions,
  sum_of-group_by currency_code (λ t. t.currency) (λ t. t.amount) rows,
  sum_of-group_by type_code (λ t. t.transaction_type) (λ _. pos 1) rows ∙ sum_of-ones rows,
)
  where
    rows : List TransactionRow
    rows = daily calendar date db.transactions

-- The summary of a date, by the rows of the table that were submitted on it. The number of
-- transactions and their volume are the count and the sum over these rows; the settled and the
-- failed count are those of the rows with that status; the amount of a currency is the sum of the
-- amounts in it, and the count of a type the number of rows of it, both 0 where there are none; and
-- the amounts of all currencies sum up to the volume, the counts of all types to the number of
-- transactions.
pub select_summary-counts :
    (calendar : Calendar) (date : ℕ) (db db' : Db) (s : DailySummary) (currency : Currency)
    (type : TransactionType)
    → select_summary calendar date db ≡ ok (s, db')
    → Counted calendar date db currency type s
unfolding select_summary
select_summary-counts calendar date db db' s currency type e =
    let same : summarise (calendar.date_text date) (daily calendar date db.transactions) ≡ s =
      ground arith in
    subst (Counted calendar date db currency type) same
      (summarise-Counted calendar date db currency type)
