-- ===== src/Shared/Settings.antt =====
-- The configurations of the services: what the `load` functions ask of the configuration library. It
-- merges the sources, reads numbers and refuses a field that is missing; a default counts where no
-- source has the key. Which of several bad fields an error names is its own matter.
use financial_data_platform.Prelude.Int.{ℤ, pos, negsuc, leb_ℤ}
use financial_data_platform.Prelude.{
  ℕ, Bool, ◌&&◌, String, Option, none, some, Result, ok, err, leb, if◌then◌else◌,
}

pub data ConfigError : Type 0 where
  missing_field invalid_type : String → ConfigError

-- The merged sources, and the reading of numbers.
pub record Settings : Type 0 where
  pub get : String → Option String
  pub unsigned : String → Option ℕ
  pub signed : String → Option ℤ

abbrev pub Loading : Type 0 → Type 0
Loading = Result ConfigError

infixl 5 ◌>>=◌
abbrev pub ◌>>=◌ : {A B : Type 0} → Loading A → (A → Loading B) → Loading B
(ok a) >>= f = f a
(err e) >>= f = err e

abbrev pub fits_i64 : ℤ → Bool
fits_i64 n = leb_ℤ (negsuc 9_223_372_036_854_775_807) n && leb_ℤ n (pos 9_223_372_036_854_775_807)

module _ (s : Settings) (key : String) where
  abbrev pub text : Option String → Loading String
  text default = elim (s.get key) [
    | some value ↦ ok value
    | none ↦ elim default [ some value ↦ ok value | none ↦ err (missing_field key) ]
  ]

  abbrev pub optional_text : Loading (Option String)
  optional_text = ok (s.get key)

  -- An `i64`.
  abbrev pub integer : (default : ℤ) → Loading ℤ
  integer default = elim (s.get key) [
    | none ↦ ok default
    | some value ↦ elim (s.signed value) [
      | none ↦ err (invalid_type key)
      | some n ↦ if fits_i64 n then ok n else err (invalid_type key)
    ]
  ]

  -- A number of a type with this greatest value.
  abbrev pub number : (max default : ℕ) → Loading ℕ
  number max default = elim (s.get key) [
    | none ↦ ok default
    | some value ↦ elim (s.unsigned value) [
      | none ↦ err (invalid_type key)
      | some n ↦ if leb n max then ok n else err (invalid_type key)
    ]
  ]

abbrev pub max_u32 : ℕ
max_u32 = 4_294_967_295

abbrev pub max_u64 : ℕ
max_u64 = 18_446_744_073_709_551_615
