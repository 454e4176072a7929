-- ===== src/Prelude/Keyed.antt =====
-- Lists whose keys are all different, as the rows of a table with a primary key are.
use financial_data_platform.Prelude.{ℕ, ⊤, ◌≡◌, false, none, some, List, [], ◌∷◌, arith, ◌==◌, All}
use financial_data_platform.Prelude.Table.{Table, find, append, set}

pub All-both {ℓ κ μ ν} :
    {A : Type ℓ} (P : A → Type κ) (Q : A → Type μ) (R : A → Type ν) (xs : List A)
    → ((x : A) → P x → Q x → R x)
    → All P xs
    → All Q xs
    → All R xs
All-both P Q R [] f ps qs = tt
All-both P Q R (x ∷ xs) f (p, ps) (q, qs) = (f x p q, All-both P Q R xs f ps qs)

pub All-map {ℓ κ ν} :
    {A : Type ℓ} (P : A → Type κ) (R : A → Type ν) (xs : List A)
    → ((x : A) → P x → R x)
    → All P xs
    → All R xs
All-map P R xs f ps = All-both P P R xs (λ x p _. f x p) ps ps

module _ {ℓ} {V : Type ℓ} where
  abbrev pub Fresh : ℕ → Table V → Type 0
  Fresh k t = All (λ p. (p.0 == k) ≡ false) t

  abbrev pub Distinct : Table V → Type 0
  Distinct [] = ⊤
  Distinct ((k, _) ∷ t) = Fresh k t × Distinct t

  -- Where the keys are different, each item is the row of its key.
  pub Distinct-find : (t : Table V) → Distinct t → All (λ p. find p.0 t ≡ some p.1) t
  unfolding find
  Distinct-find [] d = tt
  Distinct-find ((k, v) ∷ t) (fresh, d) = (
    ground arith,
    All-both (λ p. (p.0 == k) ≡ false) (λ p. find p.0 t ≡ some p.1)
        (λ p. find p.0 ((k, v) ∷ t) ≡ some p.1) t (λ p ne there. ground arith) fresh
        (Distinct-find t d),
  )

  Fresh-append :
      (j k : ℕ) (v : V) (t : Table V) → (k == j) ≡ false → Fresh j t → Fresh j (append k v t)
  unfolding append
  Fresh-append j k v [] ne f = (ne, tt)
  Fresh-append j k v ((i, w) ∷ t) ne (g, f) = (g, Fresh-append j k v t ne f)

  pub Distinct-append :
      (k : ℕ) (v : V) (t : Table V) → find k t ≡ none → Distinct t → Distinct (append k v t)
  unfolding append find
  Distinct-append k v [] e d = (tt, tt)
  Distinct-append k v ((j, w) ∷ t) e (f, d) =
      (Fresh-append j k v t (ground arith) f, Distinct-append k v t (ground arith) d)

  Fresh-set : (j k : ℕ) (v : V) (t : Table V) → Fresh j t → Fresh j (set k v t)
  unfolding set
  Fresh-set j k v [] f = tt
  Fresh-set j k v ((i, w) ∷ t) (g, f) = ground (arith, g, f, Fresh-set j k v t f)

  pub Distinct-set : (k : ℕ) (v : V) (t : Table V) → Distinct t → Distinct (set k v t)
  unfolding set
  Distinct-set k v [] d = tt
  Distinct-set k v ((j, w) ∷ t) (f, d) =
      ground (arith, f, d, Fresh-set j k v t f, Distinct-set k v t d)
