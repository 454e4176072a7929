-- ===== src/Worker/Ledger/Operations.antt =====
-- What a whole operation does to the books: it keeps them, moves the sum of the balances by what the
-- type of the transaction says, adds its one or two entries to the ledger, and touches no transaction.
use financial_data_platform.Prelude.{
  ℕ, ◌≡◌, ◌++◌, refl, sym, ◌∙◌, subst, Option, none, some, inl, inr, List, [], ◌∷◌, arith, ◌==◌,
  if◌then◌else◌, Option-cases,
}
use financial_data_platform.Prelude.Int.{ℤ, pos, ◌+ℤ◌, ◌-ℤ◌, int_laws}
use financial_data_platform.Shared.Domain.{
  TransactionType, credit_type, debit_type, transfer_type, fee_type, reversal_type, adjustment_type,
}
use financial_data_platform.Store.Tables.{
  EntryType, debit_entry, credit_entry, LedgerRow, AuditState, Db,
}
use financial_data_platform.Store.Grows.{
  Persists-set, SameAccount, SameAccount-refl, as_before, with_new, Grows, Grows-trans, Grows-rows,
}
use financial_data_platform.Worker.Postings.{with_balance}
use financial_data_platform.Worker.Ledger.Books.{Books, Books-same, post-Books}
use financial_data_platform.Worker.Ledger.Total.{total, total-post, shifted}
use financial_data_platform.Worker.Postings.Spec.{
  post, post-eq-some, moved, closed, audited, credited, debited, both_posted, transferred,
  performed,
}

-- An entry's account, side and amount.
pub record Leg : Type 0 where
  pub account_id : ℕ
  pub entry_type : EntryType
  pub amount : ℤ

abbrev leg : EntryType → ℤ → ℕ → Leg
leg kind amount k = record { account_id = k; entry_type = kind; amount = amount }

-- The entries that a transaction has in the ledger, the newest first.
abbrev pub entries_of : ℕ → List LedgerRow → List Leg
entries_of id [] = []
entries_of id (e ∷ es) =
    let rest = entries_of id es in
    if e.transaction_id == id then leg e.entry_type e.amount e.account_id ∷ rest else rest

-- What one step may do to the books, whatever its legs are.
pub record Change (transaction_id : ℕ) (legs : List Leg) (net : ℤ) (db db' : Db) : Type 0 where
  pub books : Books db → Books db'
  pub sum : total db'.accounts ≡ total db.accounts +ℤ net
  pub same_transactions : db'.transactions ≡ db.transactions
  pub same_outbox : db'.outbox_events ≡ db.outbox_events
  pub grows : Grows db db'
  pub entries :
      (j : ℕ)
      → entries_of j db'.ledger_entries ≡ (
          if j == transaction_id
          then legs ++ entries_of j db.ledger_entries
          else entries_of j db.ledger_entries)

Change-trans :
    (id : ℕ) (l : Leg) (m : List Leg) (x y z : ℤ) (a b c : Db)
    → ((t : ℤ) → t +ℤ x +ℤ y ≡ t +ℤ z)
    → Change id m x a b
    → Change id (l ∷ []) y b c
    → Change id (l ∷ m) z a c
Change-trans id l m x y z a b c add h k = record {
  books = λ books. k.books (h.books books);
  sum = rw (k.sum, h.sum) (add (total a.accounts));
  same_transactions = k.same_transactions ∙ h.same_transactions;
  same_outbox = k.same_outbox ∙ h.same_outbox;
  grows = Grows-trans a b c h.grows k.grows;
  entries = λ j. ground (arith, h.entries j, k.entries j);
}

net_cancels : (amount t : ℤ) → t +ℤ (pos 0 -ℤ amount) +ℤ amount ≡ t +ℤ pos 0
net_cancels amount t = omega int_laws

abbrev pub net_of : EntryType → ℤ → ℤ
net_of debit_entry amount = pos 0 -ℤ amount
net_of credit_entry amount = amount

module _ (now id : ℕ) where
  post-Change :
      (kind : EntryType) (k : ℕ) (amount : ℤ) (db : Db) {db' : Db}
      → post now id kind k amount db ≡ some db'
      → Change id (leg kind amount k ∷ []) (net_of kind amount) db db'
  post-Change kind k amount db {db'} e =
      let (a, found, fits, positive, same) = post-eq-some now id kind k amount db e in
      record {
        books = λ b. post-Books now id kind k amount db b e;
        sum = sum kind (total-post now id kind k amount db e);
        same_transactions = rw same refl;
        same_outbox = rw same refl;
        grows = subst (Grows db) (sym same) (record {
          accounts =
              Persists-set SameAccount k a (with_balance (moved kind a.balance amount) now a)
                db.accounts SameAccount-refl found
                (record {
                  same_external = refl;
                  same_owner = refl;
                  same_currency = refl;
                  same_active = refl;
                  same_opening = refl;
                });
          ledger = with_new _ db.ledger_entries (as_before db.ledger_entries refl);
          audit = as_before db.audit_log refl;
          letters = as_before db.dead_letter_queue refl;
        });
        entries = λ j. rw same (ground arith);
      }
    where
      sub_add : (x : ℤ) → x -ℤ amount ≡ x +ℤ (pos 0 -ℤ amount)
      sub_add x = omega int_laws

      sum :
          (kind : EntryType)
          → total db'.accounts ≡ shifted kind amount (total db.accounts)
          → total db'.accounts ≡ total db.accounts +ℤ net_of kind amount
      sum debit_entry h = h ∙ sub_add (total db.accounts)
      sum credit_entry h = h

  closed-Change :
      (c : ℕ) (legs : List Leg) (net : ℤ) (state : AuditState) (db : Db) (o : Option Db) {db' : Db}
      → ((d : Db) → o ≡ some d → Change id legs net db d)
      → closed now id c state o ≡ some db'
      → Change id legs net db db'
  closed-Change c legs net state db none h e = absurd (cc)
  closed-Change c legs net state db (some d) {db'} h e =
      let same : audited now id c state d ≡ db' = cc in
      subst (Change id legs net db) same (
        let change = h d refl in
        record {
          books = λ b. Books-same d _ refl refl (change.books b);
          sum = change.sum;
          same_transactions = change.same_transactions;
          same_outbox = change.same_outbox;
          grows = Grows-trans db d (audited now id c state d) change.grows (
              Grows-rows d (audited now id c state d) refl (as_before d.ledger_entries refl)
                (with_new _ d.audit_log (as_before d.audit_log refl))
                (as_before d.dead_letter_queue refl));
          entries = change.entries;
        })

  both_posted-Change :
      (j k : ℕ) (amount : ℤ) (db d : Db)
      → both_posted now id amount j k db ≡ some d
      → Change id (leg credit_entry amount k ∷ leg debit_entry amount j ∷ []) (pos 0) db d
  both_posted-Change j k amount db d e = elim (Option-cases (post now id debit_entry j amount db)) [
    | inl refused ↦ absurd (ground arith)
    | inr (m, paid) ↦
        Change-trans id (leg credit_entry amount k) (leg debit_entry amount j ∷ [])
          (net_of debit_entry amount) amount (pos 0) db m d (net_cancels amount)
          (post-Change debit_entry j amount db paid)
          (post-Change credit_entry k amount m (ground arith))
  ]

-- The entries of a settled transaction, and what it adds to the sum of the balances.
abbrev pub legs_of : TransactionType → ℤ → Option ℕ → Option ℕ → List Leg
legs_of transfer_type amount (some j) (some k) =
    leg credit_entry amount k ∷ leg debit_entry amount j ∷ []
legs_of credit_type amount source (some k) = leg credit_entry amount k ∷ []
legs_of debit_type amount (some j) dest = leg debit_entry amount j ∷ []
legs_of fee_type amount (some j) dest = leg debit_entry amount j ∷ []
legs_of _ amount source dest = []

abbrev pub net_change : TransactionType → ℤ → ℤ
net_change credit_type amount = amount
net_change debit_type amount = pos 0 -ℤ amount
net_change fee_type amount = pos 0 -ℤ amount
net_change _ amount = pos 0

pub performed-Change :
    (now id c : ℕ) (type : TransactionType) (amount : ℤ) (source dest : Option ℕ) (db : Db)
    {db' : Db}
    → performed now id c type amount source dest db ≡ some db'
    → Change id (legs_of type amount source dest) (net_change type amount) db db'
unfolding performed transferred credited debited
performed-Change now id c transfer_type amount (some j) (some k) db e =
    closed-Change now id c _ (pos 0) _ db _ (both_posted-Change now id j k amount db) e
performed-Change now id c transfer_type amount none dest db e = absurd (cc)
performed-Change now id c transfer_type amount (some j) none db e = absurd (cc)
performed-Change now id c credit_type amount source none db e = absurd (cc)
performed-Change now id c credit_type amount source (some k) db e =
    closed-Change now id c _ amount _ db _ (λ d h. post-Change now id credit_entry k amount db h) e
performed-Change now id c debit_type amount none dest db e = absurd (cc)
performed-Change now id c debit_type amount (some k) dest db e =
    closed-Change now id c _ (pos 0 -ℤ amount) _ db _
      (λ d h. post-Change now id debit_entry k amount db h) e
performed-Change now id c fee_type amount none dest db e = absurd (cc)
performed-Change now id c fee_type amount (some k) dest db e =
    closed-Change now id c _ (pos 0 -ℤ amount) _ db _
      (λ d h. post-Change now id debit_entry k amount db h) e
performed-Change now id c reversal_type amount source dest db e = absurd (cc)
performed-Change now id c adjustment_type amount source dest db e = absurd (cc)
