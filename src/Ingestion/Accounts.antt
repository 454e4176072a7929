-- ===== src/Ingestion/Accounts.antt =====
-- crates/ingestion/src/handlers/accounts.rs: opening an account, and reading one.
pub mod Laws
use financial_data_platform.Prelude.{ℕ, true, String, Bool, ok_or}
use financial_data_platform.Prelude.Int.{ℤ, pos}
use financial_data_platform.Shared.Domain.{Currency}
use financial_data_platform.Store.Inserts.{insert_account}
use financial_data_platform.Store.Session.{Env, pure, lift, ◌>>=◌, ◌>>◌, autocommit}
use financial_data_platform.Store.Statements.{select_account}
use financial_data_platform.Store.Tables.{AccountRow}
use financial_data_platform.Ingestion.Api.{not_found, database}
use financial_data_platform.Ingestion.Transactions.{Api}

pub record CreateAccountRequest : Type 0 where
  pub external_id : String
  pub owner_id : String
  pub currency : Currency

-- The answer, under its status.
pub record AccountCreated : Type 0 where
  pub status_code : ℕ
  pub id : ℕ
  pub external_id : String

pub record AccountView : Type 0 where
  pub id : ℕ
  pub external_id : String
  pub owner_id : String
  pub currency : Currency
  pub balance : ℤ
  pub is_active : Bool
  pub created_at : ℕ

-- The row with the columns' defaults.
abbrev pub new_account : (now : ℕ) → CreateAccountRequest → AccountRow
new_account now body = record {
  external_id = body.external_id;
  owner_id = body.owner_id;
  currency = body.currency;
  balance = pos 0;
  version = 1;
  is_active = true;
  created_at = now;
  updated_at = now;
}

abbrev pub account_view : ℕ → AccountRow → AccountView
account_view id a = record {
  id = id;
  external_id = a.external_id;
  owner_id = a.owner_id;
  currency = a.currency;
  balance = a.balance;
  is_active = a.is_active;
  created_at = a.created_at;
}

module _ (env : Env) where
  -- `create_account`; the identifier that it draws is an argument.
  unfoldable pub create_account : ℕ → CreateAccountRequest → Api AccountCreated
  create_account id body = do
    autocommit database env (insert_account id (new_account env.now body))
    pure (record { status_code = 201; id = id; external_id = body.external_id })

  unfoldable pub get_account : ℕ → Api AccountView
  get_account id = do
    row ← autocommit database env (select_account id)
    a ← lift (ok_or row (not_found id))
    pure (account_view id a)
