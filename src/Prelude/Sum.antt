-- ===== src/Prelude/Sum.antt =====
-- The sum of what the rows of a table are worth.
use financial_data_platform.Prelude.{ℕ, ◌≡◌, some, [], ◌∷◌, arith}
use financial_data_platform.Prelude.Int.{ℤ, pos, ◌+ℤ◌, int_laws}
use financial_data_platform.Prelude.Table.{Table, find, set, append}

module _ {ℓ} {V : Type ℓ} (worth : V → ℤ) where
  unfoldable pub summed : Table V → ℤ
  summed [] = pos 0
  summed ((_, v) ∷ t) = worth v +ℤ summed t

  pub summed-set :
      (k : ℕ) (v old : V) (t : Table V)
      → find k t ≡ some old
      → summed (set k v t) +ℤ worth old ≡ summed t +ℤ worth v
  unfolding summed find set
  summed-set k v old [] e = ground arith
  summed-set k v old ((j, w) ∷ t) e = grind (int_laws, summed-set k v old t)

  pub summed-append : (k : ℕ) (v : V) (t : Table V) → summed (append k v t) ≡ summed t +ℤ worth v
  unfolding summed append
  summed-append k v [] = omega int_laws
  summed-append k v ((j, w) ∷ t) = grind (int_laws, summed-append k v t)
