-- ===== src/Prelude/Pairs.antt =====
-- Lists that correspond, element by element, from an index on.
use Prim.Native.Nat.{ℕ, zero, suc, ◌+◌}
use mathlib.Core.Path.{◌≡◌, refl, subst}
use mathlib.Core.List.{List, [], ◌∷◌}
use mathlib.Core.Option.{some, some-injective}
use native.Mathlib.Omega.{arith}
use mathlib.Core.Logic.{inl, inr}
use query_smith.Prelude.Collect.{In}
use query_smith.Prelude.Lists.{map_enumerate, get_elem?}

module _ {A B : Type 0} where
  abbrev pub Pairs : (ℕ → A → B → Type 0) → ℕ → List A → List B → Type 0
  Pairs R i [] [] = Unit
  Pairs R i (f ∷ fs) (n ∷ ns) = R i f n × Pairs R (suc i) fs ns
  Pairs R i _ _ = ⊥

  pub Pairs-map_enumerate :
      (R : ℕ → A → B → Type 0) (g : ℕ → A → B)
      → ((i : ℕ) (f : A) → R i f (g i f))
      → (i : ℕ) (fs : List A) → Pairs R i fs (map_enumerate g i fs)
  Pairs-map_enumerate R g h i [] = tt
  Pairs-map_enumerate R g h i (f ∷ fs) = (h i f, Pairs-map_enumerate R g h (suc i) fs)

  -- At each position of such lists, counted from `i`, there is a pair.
  pub Pairs-get_elem? :
      (R : ℕ → A → B → Type 0) (i k : ℕ) (fs : List A) (ns : List B) (f : A)
      → Pairs R i fs ns
      → get_elem? fs k ≡ some f
      → (n : B) × (get_elem? ns k ≡ some n) × R (i + k) f n
  Pairs-get_elem? R i zero (f' ∷ fs) (n ∷ ns) f (h, hs) e =
      let zeroth : i + 0 ≡ i = omega arith in
      let same : f' ≡ f = some-injective f' f e in
      (n, refl, rw zeroth (subst (λ x. R i x n) same h))
  Pairs-get_elem? R i (suc k) (f' ∷ fs) (n ∷ ns) f (h, hs) e =
      let (m, at, r) = Pairs-get_elem? R (suc i) k fs ns f hs e in
      (m, at, let next : i + suc k ≡ suc i + k = omega arith in rw next r)
  Pairs-get_elem? R i k [] [] f h e = cc
  Pairs-get_elem? R i k [] (n ∷ ns) f h e = absurd h
  Pairs-get_elem? R i k (f' ∷ fs) [] f h e = absurd h

  -- An element of the first list has a partner in the second.
  pub Pairs-In :
      (R : A → B → Type 0) (i : ℕ) (fs : List A) (ns : List B) (f : A)
      → Pairs (λ _. R) i fs ns
      → In f fs
      → (n : B) × In n ns × R f n
  Pairs-In R i [] ns f h m = absurd m
  Pairs-In R i (f' ∷ fs) [] f h m = absurd h
  Pairs-In R i (f' ∷ fs) (n ∷ ns) f (h, hs) m = elim m [
    | inl here ↦ (n, inl refl, subst (λ x. R x n) here h)
    | inr later ↦ let (k, at, r) = Pairs-In R (suc i) fs ns f hs later in (k, inr at, r)
  ]

  -- A relation that does not mention the index holds from any other.
  pub Pairs-shift :
      (R : A → B → Type 0) (i j : ℕ) (fs : List A) (ns : List B)
      → Pairs (λ _. R) i fs ns
      → Pairs (λ _. R) j fs ns
  Pairs-shift R i j [] [] h = tt
  Pairs-shift R i j [] (n ∷ ns) h = absurd h
  Pairs-shift R i j (f ∷ fs) [] h = absurd h
  Pairs-shift R i j (f ∷ fs) (n ∷ ns) h = (h.0, Pairs-shift R (suc i) (suc j) fs ns h.1)
