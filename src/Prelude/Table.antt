-- ===== src/Prelude/Table.antt =====
-- A database table: rows under their primary key, oldest first. A key that is absent has no row;
-- `set` replaces the row of a key that is present and does nothing for an absent one.
use financial_data_platform.Prelude.{
  ℕ, ◌≡◌, refl, false, Option, none, some, List, [], ◌∷◌, arith, ◌==◌, if◌then◌else◌,
}

abbrev pub Table {ℓ} : Type ℓ → Type ℓ
Table V = List (ℕ × V)

module _ {ℓ} {V : Type ℓ} where
  unfoldable pub find : ℕ → Table V → Option V
  find k [] = none
  find k ((j, v) ∷ t) = if j == k then some v else find k t

  unfoldable pub set : ℕ → V → Table V → Table V
  set k v [] = []
  set k v ((j, w) ∷ t) = if j == k then (j, v) ∷ t else (j, w) ∷ set k v t

  -- A new row, under a key that is new.
  unfoldable pub append : ℕ → V → Table V → Table V
  append k v [] = (k, v) ∷ []
  append k v ((j, w) ∷ t) = (j, w) ∷ append k v t

  pub find-set_self :
      (k : ℕ) (v w : V) (t : Table V) → find k t ≡ some w → find k (set k v t) ≡ some v
  unfolding find set
  find-set_self k v w [] e = ground arith
  find-set_self k v w ((j, x) ∷ t) e = ground (arith, find-set_self k v w t)

  pub find-set_ne :
      (j k : ℕ) (v : V) (t : Table V) → (j == k) ≡ false → find j (set k v t) ≡ find j t
  unfolding find set
  find-set_ne j k v [] h = refl
  find-set_ne j k v ((i, x) ∷ t) h = ground (arith, find-set_ne j k v t h)

  pub find-append_self :
      (k : ℕ) (v : V) (t : Table V) → find k t ≡ none → find k (append k v t) ≡ some v
  unfolding find append
  find-append_self k v [] e = ground arith
  find-append_self k v ((j, x) ∷ t) e = ground (arith, find-append_self k v t)

  pub find-append_ne :
      (j k : ℕ) (v : V) (t : Table V) → (j == k) ≡ false → find j (append k v t) ≡ find j t
  unfolding find append
  find-append_ne j k v [] h = ground arith
  find-append_ne j k v ((i, x) ∷ t) h = ground (arith, find-append_ne j k v t h)

  pub set-set : (k : ℕ) (v w : V) (t : Table V) → set k v (set k w t) ≡ set k v t
  unfolding set
  set-set k v w [] = refl
  set-set k v w ((j, x) ∷ t) = ground (arith, set-set k v w t)
