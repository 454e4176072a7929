-- ===== src/Shared/Decimal.antt =====
-- Amounts as the services exchange them: a rust_decimal value is a whole number of units of
-- 10^-scale. A NUMERIC(19,4) column keeps four digits and rounds half away from zero, so a column's
-- value is a whole number of ten-thousandths.
use financial_data_platform.Prelude.{
  ℕ, ◌+◌, ◌*◌, ◌/◌, ◌^◌, suc, Bool, String, Option, some, ◌≡◌, ◌≤◌,
}
use financial_data_platform.Prelude.Int.{ℤ, pos, negsuc, ◌-ℤ◌, leb_ℤ, ◌+ℤ◌, ◌<ℤ◌, ltb_ℤ}

pub record Decimal : Type 0 where
  pub mantissa : ℤ
  pub scale : ℕ

abbrev pub round_ℕ : (numerator scale : ℕ) → ℕ
round_ℕ n scale = (n * 20_000 + 10 ^ scale) / (2 * 10 ^ scale)

-- The value that the column keeps.
unfoldable pub to_numeric : Decimal → ℤ
to_numeric d = elim d.mantissa [
  | pos n ↦ pos (round_ℕ n d.scale)
  | negsuc n ↦ pos 0 -ℤ pos (round_ℕ (suc n) d.scale)
]

-- `amount <= Decimal::ZERO`
abbrev pub le_zero : Decimal → Bool
le_zero d = leb_ℤ d.mantissa (pos 0)

-- What rust_decimal computes: a sum or a difference is missing where the library panics, because no
-- 96-bit mantissa holds it.
pub record Arithmetic : Type 0 where
  pub add : Decimal → Decimal → Option Decimal
  pub sub : Decimal → Decimal → Option Decimal
  pub less : Decimal → Decimal → Bool
  pub text : Decimal → String

-- 2^96
abbrev pub Fits : ℤ → Type 0
Fits m = (m <ℤ pos 79228162514264337593543950336) × (negsuc 79228162514264337593543950335 <ℤ m)

-- The documented behaviour on values of one scale: the results that fit are exact.
pub record IsExact (lib : Arithmetic) : Type 0 where
  pub adds :
      (m n : ℤ) (scale : ℕ)
      → scale ≤ 28
      → Fits (m +ℤ n)
      → lib.add (record { mantissa = m; scale = scale }) (record { mantissa = n; scale = scale })
        ≡ some (record { mantissa = m +ℤ n; scale = scale })
  pub subtracts :
      (m n : ℤ) (scale : ℕ)
      → scale ≤ 28
      → Fits (m -ℤ n)
      → lib.sub (record { mantissa = m; scale = scale }) (record { mantissa = n; scale = scale })
        ≡ some (record { mantissa = m -ℤ n; scale = scale })
  pub compares :
      (m n : ℤ) (scale : ℕ)
      → lib.less (record { mantissa = m; scale = scale }) (record { mantissa = n; scale = scale })
        ≡ ltb_ℤ m n
