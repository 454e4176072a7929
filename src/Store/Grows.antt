-- ===== src/Store/Grows.antt =====
-- What is never undone in the database: the rows that are only ever added, and what an account keeps
-- while its balance moves.
use financial_data_platform.Prelude.{
  ℕ, ◌≡◌, refl, sym, ◌∙◌, subst, inl, inr, Bool-cases, some, none, List, ◌∷◌, ◌==◌, arith,
}
use financial_data_platform.Prelude.Table.{
  Table, find, set, append, find-set_self, find-set_ne, find-append_ne,
}
use financial_data_platform.Store.Tables.{AccountRow, Db}

-- Rows were added on top, and the older ones are as they were.
pub data Extends {ℓ} {A : Type ℓ} (old : List A) : List A → Type ℓ where
  as_before : (new : List A) → new ≡ old → Extends old new
  with_new : (x : A) (new : List A) → Extends old new → Extends old (x ∷ new)

pub Extends-trans {ℓ} :
    {A : Type ℓ} {xs ys zs : List A} → Extends xs ys → Extends ys zs → Extends xs zs
Extends-trans {xs = xs} first (as_before _ same) = subst (Extends xs) (sym same) first
Extends-trans first (with_new x new later) = with_new x new (Extends-trans first later)

-- Each row of one table has its row under the same key of the other, related to it.
abbrev pub Persists {ℓ κ} : {V : Type ℓ} → (V → V → Type κ) → Table V → Table V → Type (ℓ ⊔ κ)
Persists {V = V} R t t' =
    (id : ℕ) (v : V) → find id t ≡ some v → (w : V) × (find id t' ≡ some w) × R v w

module _ {ℓ κ} {V : Type ℓ} (R : V → V → Type κ) where
  pub Persists-refl : (t : Table V) → ((v : V) → R v v) → Persists R t t
  Persists-refl t same id v there = (v, there, same v)

  pub Persists-trans :
      (a b c : Table V)
      → ((u v w : V) → R u v → R v w → R u w)
      → Persists R a b
      → Persists R b c
      → Persists R a c
  Persists-trans a b c join h k id u there =
      let (v, found, r) = h id u there in
      let (w, kept, s) = k id v found in (w, kept, join u v w r s)

  pub Persists-set :
      (k : ℕ) (old new : V) (t : Table V)
      → ((v : V) → R v v)
      → find k t ≡ some old
      → R old new
      → Persists R t (set k new t)
  Persists-set k old new t same found moved id v there = elim (Bool-cases (id == k)) [
    | inl it ↦ (
      new,
      ground (arith, find-set_self k new old t found, it),
      subst (λ u. R u new) (ground (arith, found, there, it)) moved,
    )
    | inr other ↦ (v, find-set_ne id k new t other ∙ there, same v)
  ]

  pub Persists-append :
      (k : ℕ) (new : V) (t : Table V)
      → ((v : V) → R v v)
      → find k t ≡ none
      → Persists R t (append k new t)
  Persists-append k new t same free id v there = elim (Bool-cases (id == k)) [
    | inl it ↦ absurd (ground (arith, free, there, it))
    | inr other ↦ (v, find-append_ne id k new t other ∙ there, same v)
  ]

-- Whose account it is, in which currency, and whether it is open.
pub record SameAccount (a b : AccountRow) : Type 0 where
  pub same_external : b.external_id ≡ a.external_id
  pub same_owner : b.owner_id ≡ a.owner_id
  pub same_currency : b.currency ≡ a.currency
  pub same_active : b.is_active ≡ a.is_active
  pub same_opening : b.created_at ≡ a.created_at

pub SameAccount-refl : (a : AccountRow) → SameAccount a a
SameAccount-refl a = record {
  same_external = refl;
  same_owner = refl;
  same_currency = refl;
  same_active = refl;
  same_opening = refl;
}

pub SameAccount-trans : (a b c : AccountRow) → SameAccount a b → SameAccount b c → SameAccount a c
SameAccount-trans a b c h k = record {
  same_external = k.same_external ∙ h.same_external;
  same_owner = k.same_owner ∙ h.same_owner;
  same_currency = k.same_currency ∙ h.same_currency;
  same_active = k.same_active ∙ h.same_active;
  same_opening = k.same_opening ∙ h.same_opening;
}

-- The ledger, the audit log and the dead letters are only added to, and no account goes.
pub record Grows (db db' : Db) : Type 0 where
  pub accounts : Persists SameAccount db.accounts db'.accounts
  pub ledger : Extends db.ledger_entries db'.ledger_entries
  pub audit : Extends db.audit_log db'.audit_log
  pub letters : Extends db.dead_letter_queue db'.dead_letter_queue

pub Grows-trans : (a b c : Db) → Grows a b → Grows b c → Grows a c
Grows-trans a b c h k = record {
  accounts =
      Persists-trans SameAccount a.accounts b.accounts c.accounts SameAccount-trans h.accounts
        k.accounts;
  ledger = Extends-trans h.ledger k.ledger;
  audit = Extends-trans h.audit k.audit;
  letters = Extends-trans h.letters k.letters;
}

-- The tables grow by their new rows, and the accounts are as they were.
pub Grows-rows :
    (db db' : Db)
    → db'.accounts ≡ db.accounts
    → Extends db.ledger_entries db'.ledger_entries
    → Extends db.audit_log db'.audit_log
    → Extends db.dead_letter_queue db'.dead_letter_queue
    → Grows db db'
Grows-rows db db' same ledger audit letters = record {
  accounts = rw same (Persists-refl SameAccount db.accounts SameAccount-refl);
  ledger = ledger;
  audit = audit;
  letters = letters;
}
