-- ===== src/Prelude/Sorting.antt =====
-- `sorted(xs, key=…)`: the stable sort, by insertion. Where the order is a strict weak one, every
-- stable sort has this result. The program's orders are given as "less than" tests.
use mathlib.Core.List.{Perm}
use mathlib.Core.List.Perm
use mathlib.Core.Path.{◌≡◌, refl}
use mathlib.Core.Bool.{Bool, true, false}
use mathlib.Core.List.{List, [], ◌∷◌}
use native.Mathlib.Omega.{arith}
use query_smith.Prelude.Tests.{if◌then◌else◌}
use mathlib.Core.Logic.{inl, inr}
use Prim.Native.Nat.{ℕ, zero, suc}
use query_smith.Prelude.Lists.{length, take, drop, All-take, All-drop, All, Any, select}

module _ {ℓ} {A : Type ℓ} (lt : A → A → Bool) where
  pub insert_by : A → List A → List A
  insert_by x [] = x ∷ []
  insert_by x (y ∷ ys) = let later = insert_by x ys in if lt y x then y ∷ later else x ∷ y ∷ ys

  unfoldable pub sort_by : List A → List A
  unfolding insert_by
  sort_by [] = []
  sort_by (x ∷ xs) = insert_by x (sort_by xs)

  -- No entry is less than one before it.
  abbrev pub IsSorted : List A → Type ℓ
  IsSorted [] = Unit
  IsSorted (x ∷ xs) = All (λ y. lt y x ≡ false) xs × IsSorted xs

module _ {ℓ κ} {A : Type ℓ} (lt : A → A → Bool) (P : A → Type κ) where
  All-insert_by : (x : A) (ys : List A) → P x → All P ys → All P (insert_by lt x ys)
  unfolding insert_by
  All-insert_by x [] px h = (px, tt)
  All-insert_by x (y ∷ ys) px h = ground (arith, All-insert_by x ys px h.1)

  pub All-sort_by : (xs : List A) → All P xs → All P (sort_by lt xs)
  unfolding sort_by
  All-sort_by [] h = tt
  All-sort_by (x ∷ xs) h = All-insert_by x (sort_by lt xs) h.0 (All-sort_by xs h.1)

module _ {ℓ} {A : Type ℓ} (lt : A → A → Bool) (asym : (x y : A) → lt x y ≡ true → lt y x ≡ false)
    (trans : (x y z : A) → lt x y ≡ false → lt y z ≡ false → lt x z ≡ false) where
  All-trans :
      (x y : A) (zs : List A)
      → lt y x ≡ false
      → All (λ z. lt z y ≡ false) zs
      → All (λ z. lt z x ≡ false) zs
  All-trans x y [] e h = tt
  All-trans x y (z ∷ zs) e h = (trans z y x h.0 e, All-trans x y zs e h.1)

  insert_by-IsSorted : (x : A) (ys : List A) → IsSorted lt ys → IsSorted lt (insert_by lt x ys)
  unfolding insert_by
  insert_by-IsSorted x [] h = (tt, tt)
  insert_by-IsSorted x (y ∷ ys) h = ground (
    arith,
    asym y x,
    insert_by-IsSorted x ys h.1,
    All-insert_by lt (λ z. lt z y ≡ false) x ys,
    All-trans x y ys,
  )

  pub sort_by-IsSorted : (xs : List A) → IsSorted lt (sort_by lt xs)
  unfolding sort_by
  sort_by-IsSorted [] = tt
  sort_by-IsSorted (x ∷ xs) = insert_by-IsSorted x (sort_by lt xs) (sort_by-IsSorted xs)

module _ {ℓ} {A : Type ℓ} (lt : A → A → Bool) (p : A → Bool)
    (same : (x y : A) → p x ≡ true → p y ≡ true → lt x y ≡ false) where
  select-insert_by : (x : A) (ys : List A) → select p (insert_by lt x ys) ≡ select p (x ∷ ys)
  unfolding insert_by
  select-insert_by x [] = refl
  select-insert_by x (y ∷ ys) = ground (arith, select-insert_by x ys, same y x)

  -- Entries of one class keep their order.
  pub select-sort_by : (xs : List A) → select p (sort_by lt xs) ≡ select p xs
  unfolding sort_by
  select-sort_by [] = refl
  select-sort_by (x ∷ xs) = ground (arith, select-insert_by x (sort_by lt xs), select-sort_by xs)

module _ {A : Type 0} (lt : A → A → Bool) (P : A → Type 0) where
  Any-insert_by : (x : A) (ys : List A) → Any P (x ∷ ys) → Any P (insert_by lt x ys)
  unfolding insert_by
  Any-insert_by x [] h = h
  Any-insert_by x (y ∷ ys) (inl h) = ground (arith, Any-insert_by x ys (inl h))
  Any-insert_by x (y ∷ ys) (inr (inl h)) = ground arith
  Any-insert_by x (y ∷ ys) (inr (inr h)) = ground (arith, Any-insert_by x ys (inr h))

  pub Any-sort_by : (xs : List A) → Any P xs → Any P (sort_by lt xs)
  unfolding sort_by
  Any-sort_by (x ∷ xs) (inl h) = Any-insert_by x (sort_by lt xs) (inl h)
  Any-sort_by (x ∷ xs) (inr h) = Any-insert_by x (sort_by lt xs) (inr (Any-sort_by xs h))
  Any-sort_by [] h = absurd h

Perm-if {ℓ} :
    {A : Type ℓ} (b : Bool) {xs ys zs : List A}
    → Perm xs zs
    → Perm ys zs
    → Perm (if b then xs else ys) zs
Perm-if true h k = h
Perm-if false h k = k

module _ {ℓ} {A : Type ℓ} (lt : A → A → Bool) where
  insert_by-perm : (x : A) (ys : List A) → Perm (insert_by lt x ys) (x ∷ ys)
  unfolding insert_by
  insert_by-perm x [] = Perm.refl _
  insert_by-perm x (y ∷ ys) =
      Perm-if (lt y x) (Perm.trans (Perm.cons y (insert_by-perm x ys)) (Perm.swap x y ys))
        (Perm.refl _)

  pub sort_by-perm : (xs : List A) → Perm (sort_by lt xs) xs
  unfolding sort_by
  sort_by-perm [] = Perm.refl _
  sort_by-perm (x ∷ xs) =
      Perm.trans (insert_by-perm x (sort_by lt xs)) (Perm.cons x (sort_by-perm xs))

module _ {A : Type 0} where
  length-insert_by :
      (lt : A → A → Bool) (x : A) (xs : List A) → length (insert_by lt x xs) ≡ suc (length xs)
  unfolding insert_by
  length-insert_by lt x [] = refl
  length-insert_by lt x (y ∷ ys) = ground (arith, length-insert_by lt x ys)

  pub length-sort_by : (lt : A → A → Bool) (xs : List A) → length (sort_by lt xs) ≡ length xs
  unfolding sort_by
  length-sort_by lt [] = refl
  length-sort_by lt (x ∷ xs) =
      omega (arith, length-insert_by lt x (sort_by lt xs), length-sort_by lt xs)

-- The first entries of a sorted list, and the others.
module _ {A : Type 0} (lt : A → A → Bool) where
  pub IsSorted-take : (n : ℕ) (xs : List A) → IsSorted lt xs → IsSorted lt (take n xs)
  IsSorted-take zero xs h = tt
  IsSorted-take (suc n) [] h = tt
  IsSorted-take (suc n) (x ∷ xs) h = (All-take _ n xs h.0, IsSorted-take n xs h.1)

  pub All-take-drop :
      (n : ℕ) (xs : List A)
      → IsSorted lt xs
      → All (λ x. All (λ y. lt y x ≡ false) (drop n xs)) (take n xs)
  All-take-drop zero xs h = tt
  All-take-drop (suc n) [] h = tt
  All-take-drop (suc n) (x ∷ xs) h = (All-drop _ n xs h.0, All-take-drop n xs h.1)
