-- ===== src/Worker/Postings/Refine.antt =====
-- The business logic implements its specification: an operation that succeeds has made exactly the
-- change that the specification names, and one that fails has changed nothing that can be committed.
use financial_data_platform.Prelude.{
  ℕ, ⊤, ◌≡◌, ◌≢◌, refl, ◌∙◌, Option, none, some, false, arith, ◌==◌, ==_refl, true, leb,
  if◌then◌else◌,
}
use financial_data_platform.Prelude.Int.{ℤ, ◌+ℤ◌, ◌-ℤ◌, pos, lt→ltb_ℤ}
use financial_data_platform.Prelude.Table.{find, find-set_ne, find-set_self}
use financial_data_platform.Store.Tables.{Db, AccountRow}
use financial_data_platform.Store.Session.{Env, Session}
use financial_data_platform.Store.Logic.{Ensures, bind-Ensures, weaken-Ensures}
use financial_data_platform.Worker.Postings.{
  process_credit, process_debit, process_transfer, move_funds, with_balance,
}
use financial_data_platform.Worker.Postings.Spec.{post, credited, debited, transferred}
use financial_data_platform.Worker.Postings.Steps.{
  Live, FailsSafe, fetch_account-Ensures, write_ledger_entry-Ensures, update_account-Ensures,
  audit_settled-Ensures, fail_if-Ensures, ok_or-Ensures,
}

-- A success is a change that the specification `f` allows.
abbrev pub Refines : (Db → Option Db) → Session → ⊤ → Session → Type 0
Refines f s _ s' = Live s s' × (f s.working ≡ some s'.working)

module _ (env : Env) (transaction_id correlation_id : ℕ) (amount : ℤ) (s : Session)
    (live : s.aborted ≡ false) where
  -- In a live session, a credit that succeeds has changed the working copy exactly as the
  -- specification `credited` says, and one that fails leaves the session aborted or its working copy
  -- as it was, with nothing committed.
  pub process_credit-Refines :
      (dest : Option ℕ)
      → Ensures
          (FailsSafe s)
          (Refines (credited env.now transaction_id correlation_id amount dest) s)
          (process_credit env transaction_id amount dest correlation_id s)
  unfolding process_credit credited post
  process_credit-Refines dest =
      bind-Ensures (FailsSafe s) _ _ _ _ s (ok_or-Ensures env s s (live, refl) dest _ refl)
        λ k s₀ h₀.
          bind-Ensures (FailsSafe s) _ _ _ _ s₀ (fetch_account-Ensures env s s₀ h₀.0 k h₀.1)
            λ d s₁ h₁.
              bind-Ensures (FailsSafe s) _ _ _ _ s₁
                (fail_if-Ensures env s s₁ h₁.0 _ _ (h₁.1 ∙ h₀.1))
                λ _ s₂ h₂.
                  bind-Ensures (FailsSafe s) _ _ _ _ s₂
                    (update_account-Ensures env s s₂ h₂.0 k (λ _. true) _ d (cc) refl)
                    λ _ s₃ h₃.
                      bind-Ensures (FailsSafe s) _ _ _ _ s₃
                        (write_ledger_entry-Ensures env s s₃ h₃.0 _ k _ _ _
                          (with_balance (d.balance +ℤ amount) env.now d)
                          (ground (
                            arith,
                            find-set_self k (with_balance (d.balance +ℤ amount) env.now d) d
                                s₂.working.accounts,
                          )))
                        λ _ s₄ h₄.
                          weaken-Ensures (FailsSafe s) _
                            (Refines (credited env.now transaction_id correlation_id amount dest) s)
                            _
                            (audit_settled-Ensures env s s₄ h₄.0 transaction_id correlation_id
                              "CREDIT" amount none (some k))
                            λ _ s₅ h₅. ground (arith, lt→ltb_ℤ (pos 0) amount)

  -- In a live session, a debit that succeeds has changed the working copy exactly as the
  -- specification `debited` says, and one that fails leaves the session aborted or its working copy
  -- as it was, with nothing committed.
  pub process_debit-Refines :
      (source : Option ℕ)
      → Ensures
          (FailsSafe s)
          (Refines (debited env.now transaction_id correlation_id amount source) s)
          (process_debit env transaction_id amount source correlation_id s)
  unfolding process_debit debited post
  process_debit-Refines source =
      bind-Ensures (FailsSafe s) _ _ _ _ s (ok_or-Ensures env s s (live, refl) source _ refl)
        λ k s₀ h₀.
          bind-Ensures (FailsSafe s) _ _ _ _ s₀ (fetch_account-Ensures env s s₀ h₀.0 k h₀.1)
            λ d s₁ h₁.
              bind-Ensures (FailsSafe s) _ _ _ _ s₁
                (fail_if-Ensures env s s₁ h₁.0 _ _ (h₁.1 ∙ h₀.1))
                λ _ s₂ h₂.
                  bind-Ensures (FailsSafe s) _ _ _ _ s₂
                    (fail_if-Ensures env s s₂ h₂.0 _ _ (h₂.1 ∙ h₁.1 ∙ h₀.1))
                    λ _ s₂' h₂'.
                      bind-Ensures (FailsSafe s) _ _ _ _ s₂'
                        (update_account-Ensures env s s₂' h₂'.0 k (λ _. true) _ d (cc) refl)
                        λ _ s₃ h₃.
                          bind-Ensures (FailsSafe s) _ _ _ _ s₃
                            (write_ledger_entry-Ensures env s s₃ h₃.0 _ k _ _ _
                              (with_balance (d.balance -ℤ amount) env.now d)
                              (ground (
                                arith,
                                find-set_self k (with_balance (d.balance -ℤ amount) env.now d) d
                                    s₂'.working.accounts,
                              )))
                            λ _ s₄ h₄.
                              weaken-Ensures (FailsSafe s) _
                                (Refines
                                  (debited env.now transaction_id correlation_id amount source) s)
                                _
                                (audit_settled-Ensures env s s₄ h₄.0 transaction_id correlation_id
                                  "DEBIT" amount (some k) none)
                                λ _ s₅ h₅. ground (arith, lt→ltb_ℤ (pos 0) amount)

  move_funds-Refines :
      (j k : ℕ) (x y : AccountRow) (t : Session)
      → (j == k) ≡ false
      → (k == j) ≡ false
      → Live s t
      → t.working ≡ s.working
      → find j s.working.accounts ≡ some x
      → find k s.working.accounts ≡ some y
      → Ensures
          (FailsSafe s)
          (Refines (transferred env.now transaction_id correlation_id amount (some j) (some k)) s)
          (move_funds env transaction_id amount j k x y correlation_id t)
  unfolding move_funds transferred post
  move_funds-Refines j k x y t ne ne' live_t same fx fy =
      bind-Ensures (FailsSafe s) _ _ _ _ t (fail_if-Ensures env s t live_t _ _ same) λ _ t₁ h₁.
        bind-Ensures (FailsSafe s) _ _ _ _ t₁ (fail_if-Ensures env s t₁ h₁.0 _ _ (h₁.1 ∙ same))
          λ _ t₂ h₂.
            bind-Ensures (FailsSafe s) _ _ _ _ t₂
              (fail_if-Ensures env s t₂ h₂.0 _ _ (h₂.1 ∙ h₁.1 ∙ same))
              λ _ t₃ h₃.
                bind-Ensures (FailsSafe s) _ _ _ _ t₃
                  (update_account-Ensures env s t₃ h₃.0 j _ _ x (cc) (==_refl x.version))
                  λ _ t₄ h₄.
                    bind-Ensures (FailsSafe s) _ _ _ _ t₄
                      (update_account-Ensures env s t₄ h₄.0 k _ _ y
                        (ground (arith, find-set_ne k j x' t₃.working.accounts))
                        (==_refl y.version))
                      λ _ t₅ h₅.
                        bind-Ensures (FailsSafe s) _ _ _ _ t₅
                          (write_ledger_entry-Ensures env s t₅ h₅.0 _ j _ _ _ x' (
                            ground (
                              arith,
                              find-set_self j x' x t₃.working.accounts,
                              find-set_ne j k y' t₄.working.accounts,
                            )))
                          λ _ t₆ h₆.
                            bind-Ensures (FailsSafe s) _ _ _ _ t₆
                              (write_ledger_entry-Ensures env s t₆ h₆.0 _ k _ _ _ y' (
                                ground (
                                  arith,
                                  find-set_ne k j x' t₃.working.accounts,
                                  find-set_self k y' y t₄.working.accounts,
                                )))
                              λ _ t₇ h₇.
                                weaken-Ensures (FailsSafe s) _
                                  (Refines
                                    (transferred env.now transaction_id correlation_id amount
                                      (some j) (some k))
                                    s)
                                  _
                                  (audit_settled-Ensures env s t₇ h₇.0 transaction_id correlation_id
                                    "TRANSFER" amount (some j) (some k))
                                  λ _ t₈ h₈. ground (
                                    arith,
                                    lt→ltb_ℤ (pos 0) amount,
                                    find-set_ne k j x' s.working.accounts,
                                  )
    where
      x' : AccountRow
      x' = with_balance (x.balance -ℤ amount) env.now x

      y' : AccountRow
      y' = with_balance (y.balance +ℤ amount) env.now y

  -- In a live session, a transfer whose two sides differ and that succeeds has changed the working
  -- copy exactly as the specification `transferred` says, and one that fails leaves the session
  -- aborted or its working copy as it was, with nothing committed.
  pub process_transfer-Refines :
      (source dest : Option ℕ)
      → source ≢ dest
      → Ensures
          (FailsSafe s)
          (Refines (transferred env.now transaction_id correlation_id amount source dest) s)
          (process_transfer env transaction_id amount source dest correlation_id s)
  unfolding process_transfer transferred post
  process_transfer-Refines source dest differ =
      bind-Ensures (FailsSafe s) _ _ _ _ s (ok_or-Ensures env s s (live, refl) source _ refl)
        λ j a₀ ha.
          bind-Ensures (FailsSafe s) _ _ _ _ a₀ (ok_or-Ensures env s a₀ ha.0 dest _ ha.1) λ k b₀ hb.
            bind-Ensures (FailsSafe s) _ _ _ _ b₀
              (fetch_account-Ensures env s b₀ hb.0 (if leb j k then j else k) (hb.1 ∙ ha.1))
              λ x c₀ hc.
                bind-Ensures (FailsSafe s) _ _ _ _ c₀
                  (fetch_account-Ensures env s c₀ hc.0 (if leb j k then k else j)
                    (hc.1 ∙ hb.1 ∙ ha.1))
                  λ y d₀ hd.
                    weaken-Ensures (FailsSafe s) _
                      (Refines
                        (transferred env.now transaction_id correlation_id amount source dest) s)
                      _
                      (move_funds-Refines j k (if (if leb j k then j else k) == j then x else y)
                        (if (if leb j k then j else k) == k then x else y) d₀ (ground arith)
                        (ground arith) hd.0 (hd.1 ∙ hc.1 ∙ hb.1 ∙ ha.1) (ground arith)
                        (ground arith))
                      λ _ t ht. (ht.0, cc)
