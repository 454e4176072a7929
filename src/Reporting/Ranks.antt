-- ===== src/Reporting/Ranks.antt =====
-- Lists in falling order, and their first items.
use financial_data_platform.Prelude.{
  ℕ, ◌-◌, ◌≤◌, ⊤, ◌≡◌, refl, sym, subst, ◌⊎◌, inl, inr, Bool-cases, List, [], ◌∷◌, arith, ◌==◌, All,
  length,
}
use financial_data_platform.Prelude.Int.{ℤ, ◌≤ℤ◌, leb_ℤ}
use financial_data_platform.Prelude.Keyed.{All-map}
use financial_data_platform.Reporting.Groups.{insert_desc, order_desc, take}

abbrev pub Occurs : {A : Type 0} → A → List A → Type 0
Occurs x [] = ⊥
Occurs x (y ∷ ys) = (x ≡ y) ⊎ Occurs x ys

pub All-take : {A : Type 0} (P : A → Type 0) (n : ℕ) (xs : List A) → All P xs → All P (take n xs)
All-take P n [] ps = tt
All-take P n (x ∷ xs) (p, ps) = ground (arith, p, All-take P (n - 1) xs ps)

pub length-take : {A : Type 0} (n : ℕ) (xs : List A) → length (take n xs) ≤ n
length-take n [] = omega arith
length-take n (x ∷ xs) = ground (arith, length-take (n - 1) xs)

Occurs-All : {A : Type 0} (P : A → Type 0) (z : A) (xs : List A) → All P xs → Occurs z xs → P z
Occurs-All P z [] ps o = absurd o
Occurs-All P z (x ∷ xs) (p, ps) (inl same) = subst P (sym same) p
Occurs-All P z (x ∷ xs) (p, ps) (inr later) = Occurs-All P z xs ps later

module _ {A : Type 0} (value : A → ℤ) where
  abbrev pub IsDescending : List A → Type 0
  IsDescending [] = ⊤
  IsDescending (x ∷ xs) = All (λ y. value y ≤ℤ value x) xs × IsDescending xs

  All-insert_desc :
      (P : A → Type 0) (x : A) (xs : List A) → P x → All P xs → All P (insert_desc value x xs)
  All-insert_desc P x [] p ps = (p, tt)
  All-insert_desc P x (y ∷ ys) p (q, ps) = ground (arith, p, q, ps, All-insert_desc P x ys p ps)

  pub All-order_desc : (P : A → Type 0) (xs : List A) → All P xs → All P (order_desc value xs)
  All-order_desc P [] ps = tt
  All-order_desc P (x ∷ xs) (p, ps) =
      All-insert_desc P x (order_desc value xs) p (All-order_desc P xs ps)

  insert_desc-IsDescending :
      (x : A) (xs : List A) → IsDescending xs → IsDescending (insert_desc value x xs)
  insert_desc-IsDescending x [] d = (tt, tt)
  insert_desc-IsDescending x (y ∷ ys) (below, d) = elim (Bool-cases (leb_ℤ (value y) (value x))) [
    | inl lower ↦ rw lower (
      (
        ground arith,
        All-map (λ z. value z ≤ℤ value y) (λ z. value z ≤ℤ value x) ys
            (λ z h. ground (arith, h, lower)) below,
      ),
      (below, d),
    )
    | inr higher ↦ rw higher (
      All-insert_desc (λ z. value z ≤ℤ value y) x ys (ground arith) below,
      insert_desc-IsDescending x ys d,
    )
  ]

  pub order_desc-IsDescending : (xs : List A) → IsDescending (order_desc value xs)
  order_desc-IsDescending [] = tt
  order_desc-IsDescending (x ∷ xs) =
      insert_desc-IsDescending x (order_desc value xs) (order_desc-IsDescending xs)

  Occurs-insert_desc_new : (x : A) (xs : List A) → Occurs x (insert_desc value x xs)
  Occurs-insert_desc_new x [] = inl refl
  Occurs-insert_desc_new x (y ∷ ys) = elim (Bool-cases (leb_ℤ (value y) (value x))) [
    | inl lower ↦ rw lower (inl refl)
    | inr higher ↦ rw higher (inr (Occurs-insert_desc_new x ys))
  ]

  Occurs-insert_desc : (x z : A) (xs : List A) → Occurs z xs → Occurs z (insert_desc value x xs)
  Occurs-insert_desc x z [] o = absurd o
  Occurs-insert_desc x z (y ∷ ys) o = elim (Bool-cases (leb_ℤ (value y) (value x))) [
    | inl lower ↦ rw lower (inr o)
    | inr higher ↦
        rw higher
          (elim o [ inl same ↦ inl same | inr later ↦ inr (Occurs-insert_desc x z ys later) ])
  ]

  pub Occurs-order_desc : (z : A) (xs : List A) → Occurs z xs → Occurs z (order_desc value xs)
  Occurs-order_desc z [] o = absurd o
  Occurs-order_desc z (x ∷ xs) (inl same) =
      subst (λ z. Occurs z (order_desc value (x ∷ xs))) (sym same)
        (Occurs-insert_desc_new x (order_desc value xs))
  Occurs-order_desc z (x ∷ xs) (inr later) =
      Occurs-insert_desc x z (order_desc value xs) (Occurs-order_desc z xs later)

  pub take-IsDescending : (n : ℕ) (xs : List A) → IsDescending xs → IsDescending (take n xs)
  take-IsDescending n [] d = tt
  take-IsDescending n (x ∷ xs) (below, d) =
      ground
        (arith, All-take (λ y. value y ≤ℤ value x) (n - 1) xs below, take-IsDescending (n - 1) xs d)

  -- An item of a falling list is among the first, or these are as many as were asked for and none is
  -- below it.
  pub Occurs-take :
      (n : ℕ) (z : A) (xs : List A)
      → IsDescending xs
      → Occurs z xs
      → Occurs z (take n xs)
        ⊎ ((length (take n xs) ≡ n) × All (λ y. value z ≤ℤ value y) (take n xs))
  Occurs-take n z [] d o = absurd o
  Occurs-take n z (x ∷ xs) (below, d) o = elim (Bool-cases (n == 0)) [
    | inl zero ↦ rw zero (inr (ground (arith, zero), tt))
    | inr more ↦ rw more (elim o [
      | inl same ↦ inl (inl same)
      | inr later ↦ elim (Occurs-take (n - 1) z xs d later) [
        | inl taken ↦ inl (inr taken)
        | inr (full, above) ↦ inr (
          ground (arith, more, full),
          (Occurs-All (λ y. value y ≤ℤ value x) z xs below later, above),
        )
      ]
    ])
  ]
