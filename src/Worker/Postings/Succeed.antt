-- ===== src/Worker/Postings/Succeed.antt =====
-- The business logic succeeds where no statement is made to fail, the accounts can pay, and the new
-- rows fit their columns.
use financial_data_platform.Prelude.{
  ℕ, ◌≡◌, refl, none, some, false, true, arith, ◌==◌, ==_refl, leb, if◌then◌else◌,
}
use financial_data_platform.Prelude.Int.{ℤ, ◌+ℤ◌, ◌-ℤ◌, pos, ◌<ℤ◌, ltb_ℤ}
use financial_data_platform.Prelude.Table.{find, find-set_ne, find-set_self}
use financial_data_platform.Store.Tables.{AccountRow}
use financial_data_platform.Store.Session.{Env, Session}
use financial_data_platform.Store.Statements.{account_fits, fits_numeric}
use financial_data_platform.Store.Logic.{Ensures, bind-Ensures}
use financial_data_platform.Worker.Postings.{
  with_balance, move_funds, process_transfer, process_credit, process_debit,
}
use financial_data_platform.Worker.Postings.Undisturbed.{
  Never, fetch_account-Never, update_account-Never, write_ledger_entry-Never, audit_settled-Never,
  fail_if-Never,
}

module _ (env : Env) (quiet : (n : ℕ) → env.statement_error n ≡ none) where
  -- The accounts of `j` and `k` hold `x` and `y`.
  module _ (transaction_id correlation_id : ℕ) (amount : ℤ) (positive : pos 0 <ℤ amount)
      (narrow : fits_numeric amount ≡ true) where
    pub process_credit-succeeds :
        (k : ℕ) (y : AccountRow) (s : Session)
        → s.aborted ≡ false
        → find k s.working.accounts ≡ some y
        → y.is_active ≡ true
        → account_fits (with_balance (y.balance +ℤ amount) env.now y) ≡ true
        → Ensures Never
            (λ _ s'. s'.aborted ≡ false)
            (process_credit env transaction_id amount (some k) correlation_id s)
    unfolding process_credit
    process_credit-succeeds k y s live found active fits =
        bind-Ensures Never (λ a t. (t.aborted ≡ false) × (t.working ≡ s.working) × (a ≡ k)) _ _ _ s
          (live, refl, refl)
          λ a s₀ h₀.
            bind-Ensures Never _ _ _ _ s₀
              (fetch_account-Never env quiet s₀ h₀.0 a y (ground (arith)))
              λ d s₁ h₁.
                bind-Ensures Never _ _ _ _ s₁ (fail_if-Never env quiet s₁ h₁.0 _ _ (ground arith))
                  λ _ s₂ h₂.
                    bind-Ensures Never _ _ _ _ s₂
                      (update_account-Never env quiet s₂ h₂.0 a (λ _. true)
                        (with_balance (d.balance +ℤ amount) env.now) y (ground arith) refl
                        (ground arith))
                      λ _ s₃ h₃.
                        bind-Ensures Never _ _ _ _ s₃
                          (write_ledger_entry-Never env quiet s₃ h₃.0 transaction_id a _ amount _
                            (with_balance (d.balance +ℤ amount) env.now y)
                            (ground (
                              arith,
                              find-set_self a (with_balance (d.balance +ℤ amount) env.now y) y
                                  s₂.working.accounts,
                            ))
                            positive narrow (ground arith))
                          λ _ s₄ h₄.
                            audit_settled-Never env quiet s₄ h₄.0 transaction_id correlation_id
                              "CREDIT" amount none (some a)

    pub process_debit-succeeds :
        (k : ℕ) (x : AccountRow) (s : Session)
        → s.aborted ≡ false
        → find k s.working.accounts ≡ some x
        → x.is_active ≡ true
        → ltb_ℤ x.balance amount ≡ false
        → account_fits (with_balance (x.balance -ℤ amount) env.now x) ≡ true
        → Ensures Never
            (λ _ s'. s'.aborted ≡ false)
            (process_debit env transaction_id amount (some k) correlation_id s)
    unfolding process_debit
    process_debit-succeeds k x s live found active rich fits =
        bind-Ensures Never (λ a t. (t.aborted ≡ false) × (t.working ≡ s.working) × (a ≡ k)) _ _ _ s
          (live, refl, refl)
          λ a s₀ h₀.
            bind-Ensures Never _ _ _ _ s₀
              (fetch_account-Never env quiet s₀ h₀.0 a x (ground (arith)))
              λ d s₁ h₁.
                bind-Ensures Never _ _ _ _ s₁ (fail_if-Never env quiet s₁ h₁.0 _ _ (ground arith))
                  λ _ t₁ g₁.
                    bind-Ensures Never _ _ _ _ t₁
                      (fail_if-Never env quiet t₁ g₁.0 _ _ (ground arith))
                      λ _ s₂ h₂.
                        bind-Ensures Never _ _ _ _ s₂
                          (update_account-Never env quiet s₂ h₂.0 a (λ _. true)
                            (with_balance (d.balance -ℤ amount) env.now) x (ground arith) refl
                            (ground arith))
                          λ _ s₃ h₃.
                            bind-Ensures Never _ _ _ _ s₃
                              (write_ledger_entry-Never env quiet s₃ h₃.0 transaction_id a _ amount
                                _ (with_balance (d.balance -ℤ amount) env.now x)
                                (ground (
                                  arith,
                                  find-set_self a (with_balance (d.balance -ℤ amount) env.now x) x
                                      s₂.working.accounts,
                                ))
                                positive narrow (ground arith))
                              λ _ s₄ h₄.
                                audit_settled-Never env quiet s₄ h₄.0 transaction_id correlation_id
                                  "DEBIT" amount (some a) none

    module _ (j k : ℕ) (x y : AccountRow) (differ : (j == k) ≡ false) (differ' : (k == j) ≡ false)
        (payer_active : x.is_active ≡ true) (rich : ltb_ℤ x.balance amount ≡ false)
        (payee_active : y.is_active ≡ true)
        (payer_fits : account_fits (with_balance (x.balance -ℤ amount) env.now x) ≡ true)
        (payee_fits : account_fits (with_balance (y.balance +ℤ amount) env.now y) ≡ true) where
      abbrev x' : AccountRow
      x' = with_balance (x.balance -ℤ amount) env.now x

      abbrev y' : AccountRow
      y' = with_balance (y.balance +ℤ amount) env.now y

      move_funds-succeeds :
          (s : Session)
          → s.aborted ≡ false
          → find j s.working.accounts ≡ some x
          → find k s.working.accounts ≡ some y
          → Ensures Never
              (λ _ s'. s'.aborted ≡ false)
              (move_funds env transaction_id amount j k x y correlation_id s)
      unfolding move_funds
      move_funds-succeeds s live fx fy =
          bind-Ensures Never _ _ _ _ s (fail_if-Never env quiet s live _ _ (ground arith))
            λ _ s₁ h₁.
              bind-Ensures Never _ _ _ _ s₁ (fail_if-Never env quiet s₁ h₁.0 _ _ rich) λ _ s₂ h₂.
                bind-Ensures Never _ _ _ _ s₂ (fail_if-Never env quiet s₂ h₂.0 _ _ (ground arith))
                  λ _ s₃ h₃.
                    bind-Ensures Never _ _ _ _ s₃
                      (update_account-Never env quiet s₃ h₃.0 j _ _ x (ground arith)
                        (==_refl x.version) payer_fits)
                      λ _ s₄ h₄.
                        bind-Ensures Never _ _ _ _ s₄
                          (update_account-Never env quiet s₄ h₄.0 k _ _ y
                            (ground (arith, find-set_ne k j x' s₃.working.accounts))
                            (==_refl y.version) payee_fits)
                          λ _ s₅ h₅.
                            bind-Ensures Never _ _ _ _ s₅
                              (write_ledger_entry-Never env quiet s₅ h₅.0 transaction_id j _ amount
                                _ x'
                                (ground (
                                  arith,
                                  find-set_self j x' x s₃.working.accounts,
                                  find-set_ne j k y' s₄.working.accounts,
                                ))
                                positive narrow (ground arith))
                              λ _ s₆ h₆.
                                bind-Ensures Never _ _ _ _ s₆
                                  (write_ledger_entry-Never env quiet s₆ h₆.0 transaction_id k _
                                    amount _ y'
                                    (ground (
                                      arith,
                                      find-set_ne k j x' s₃.working.accounts,
                                      find-set_self k y' y s₄.working.accounts,
                                    ))
                                    positive narrow (ground arith))
                                  λ _ s₇ h₇.
                                    audit_settled-Never env quiet s₇ h₇.0 transaction_id
                                      correlation_id "TRANSFER" amount (some j) (some k)

      pub process_transfer-succeeds :
          (s : Session)
          → s.aborted ≡ false
          → find j s.working.accounts ≡ some x
          → find k s.working.accounts ≡ some y
          → Ensures Never
              (λ _ s'. s'.aborted ≡ false)
              (process_transfer env transaction_id amount (some j) (some k) correlation_id s)
      unfolding process_transfer
      process_transfer-succeeds s live fx fy =
          bind-Ensures Never (λ a t. (t.aborted ≡ false) × (t.working ≡ s.working) × (a ≡ j)) _ _ _
            s (live, refl, refl)
            λ a s₀ h₀.
              bind-Ensures Never (λ b t. (t.aborted ≡ false) × (t.working ≡ s.working) × (b ≡ k)) _
                _ _ s₀ (h₀.0, h₀.1, refl)
                λ b s₁ h₁.
                  rw (h₀.2, h₁.2)
                    (bind-Ensures Never
                      (λ p t.
                        (t.aborted ≡ false)
                        × (t.working ≡ s₁.working)
                        × (p ≡ (if leb j k then x else y)))
                      _ _ _ s₁
                      (fetch_account-Never env quiet s₁ h₁.0 (if leb j k then j else k)
                        (if leb j k then x else y) (ground arith))
                      λ p s₂ h₂.
                        bind-Ensures Never
                          (λ q t.
                            (t.aborted ≡ false)
                            × (t.working ≡ s₂.working)
                            × (q ≡ (if leb j k then y else x)))
                          _ _ _ s₂
                          (fetch_account-Never env quiet s₂ h₂.0 (if leb j k then k else j)
                            (if leb j k then y else x) (ground arith))
                          λ q s₃ h₃.
                            rw (payer p q h₂.2 h₃.2, payee p q h₂.2 h₃.2)
                              (move_funds-succeeds s₃ h₃.0 (ground arith) (ground arith)))
        where
          payer :
              (p q : AccountRow)
              → p ≡ (if leb j k then x else y)
              → q ≡ (if leb j k then y else x)
              → (if (if leb j k then j else k) == j then p else q) ≡ x
          payer p q e e' = ground (arith, ==_refl j)

          payee :
              (p q : AccountRow)
              → p ≡ (if leb j k then x else y)
              → q ≡ (if leb j k then y else x)
              → (if (if leb j k then j else k) == k then p else q) ≡ y
          payee p q e e' = ground (arith, ==_refl k)
