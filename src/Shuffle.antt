-- ===== src/Shuffle.antt =====
-- src/utils.ts, shuffle.
use mathlib.Core.List.{Perm, perm-cons}
use mathlib.Core.List.Perm
use boostpow_api.Base.{ℕ, zero, suc, none, some, List, [], ◌∷◌, ◌≡◌, refl, inl, inr, Option-cases}
use boostpow_api.Base.Lists.{length, get_elem?}

module _ {A : Type 0} where
  -- `array[i] = x` at an index of the array.
  unfoldable pub set : ℕ → A → List A → List A
  set i x [] = []
  set zero x (y ∷ ys) = x ∷ ys
  set (suc i) x (y ∷ ys) = y ∷ set i x ys

  -- `[array[i], array[j]] = [array[j], array[i]]` for indices of the array.
  unfoldable pub exchange : ℕ → ℕ → List A → List A
  unfolding set
  exchange i j xs = elim (get_elem? xs i) [
    | none ↦ xs
    | some x ↦ elim (get_elem? xs j) [ none ↦ xs | some y ↦ set j x (set i y xs) ]
  ]

  -- The loop: `random n` is what `Math.floor(Math.random() * n)` gives while n elements remain.
  unfoldable pub shuffle_from : (ℕ → ℕ) → ℕ → List A → List A
  unfolding exchange
  shuffle_from random zero xs = xs
  shuffle_from random (suc n) xs = shuffle_from random n (exchange n (random (suc n)) xs)

  unfoldable pub shuffle : (ℕ → ℕ) → List A → List A
  unfolding shuffle_from
  shuffle random xs = shuffle_from random (length xs) xs

  get_elem?-set :
      (i j : ℕ) (x : A) (xs : List A) → get_elem? xs j ≡ some x → get_elem? (set i x xs) j ≡ some x
  unfolding set
  get_elem?-set i j x [] e = e
  get_elem?-set zero zero x (y ∷ ys) e = refl
  get_elem?-set zero (suc j) x (y ∷ ys) e = e
  get_elem?-set (suc i) zero x (y ∷ ys) e = e
  get_elem?-set (suc i) (suc j) x (y ∷ ys) e = get_elem?-set i j x ys e

  set-Perm :
      (i : ℕ) (x y : A) (xs : List A) → get_elem? xs i ≡ some x → Perm (x ∷ set i y xs) (y ∷ xs)
  unfolding set
  set-Perm i x y [] e = cc
  set-Perm zero x y (z ∷ zs) e = (let same : z ≡ x = cc in rw same (Perm.swap y x zs))
  set-Perm (suc i) x y (z ∷ zs) e =
      Perm.trans (Perm.swap z x (set i y zs))
        (Perm.trans (Perm.cons z (set-Perm i x y zs e)) (Perm.swap y z zs))

  exchange-Perm : (i j : ℕ) (xs : List A) → Perm (exchange i j xs) xs
  unfolding exchange
  exchange-Perm i j xs = elim (Option-cases (get_elem? xs i)) [
    | inl e ↦ rw (e, exchange) (Perm.refl xs)
    | inr (x, e) ↦ elim (Option-cases (get_elem? xs j)) [
      | inl f ↦ simp (e, f, exchange) (Perm.refl xs)
      | inr (y, f) ↦
          simp (e, f, exchange)
            ((perm-cons y).0 (
              Perm.trans (set-Perm j y x (set i y xs) (get_elem?-set i j y xs f))
                (set-Perm i x y xs e)))
    ]
  ]

  shuffle_from-Perm : (random : ℕ → ℕ) (n : ℕ) (xs : List A) → Perm (shuffle_from random n xs) xs
  unfolding shuffle_from
  shuffle_from-Perm random zero xs = Perm.refl xs
  shuffle_from-Perm random (suc n) xs =
      Perm.trans (shuffle_from-Perm random n (exchange n (random (suc n)) xs))
        (exchange-Perm n (random (suc n)) xs)

  -- The result of shuffle has the elements of the array, each as often as there, whatever the random
  -- numbers are.
  pub shuffle-Perm : (random : ℕ → ℕ) (xs : List A) → Perm (shuffle random xs) xs
  unfolding shuffle
  shuffle-Perm random xs = shuffle_from-Perm random (length xs) xs
