-- ===== src/Prelude/Collect.antt =====
-- Loops that append at most one result for each element: what holds of the results, and which
-- elements have one.
use mathlib.Core.Path.{◌≡◌, refl, ap}
use mathlib.Core.Logic.{◌≢◌, inl, inr}
use mathlib.Core.List.{List, [], ◌∷◌, map}
use mathlib.Core.Option.{Option, none, some}
use query_smith.Prelude.Lists.{All, Any, somes}
use query_smith.Prelude.Outcome.{Outcome, ok, ◌>>=◌, traverse, >>=-eq-ok}

-- `a in xs`
abbrev pub In : {A : Type 0} → A → List A → Type 0
In a xs = Any (λ x. x ≡ a) xs

-- No entry stands twice.
abbrev pub Distinct : {A : Type 0} → List A → Type 0
Distinct [] = Unit
Distinct (x ∷ xs) = All (λ y. y ≢ x) xs × Distinct xs

module _ {A B C : Type 0} (f : A → B) (g : B → C) where
  All-ne :
      (b : B) (xs : List A)
      → All (λ c. c ≢ g b) (map (λ x. g (f x)) xs)
      → All (λ c. c ≢ b) (map f xs)
  All-ne b [] h = tt
  All-ne b (x ∷ xs) h = (λ e. h.0 (ap g e), All-ne b xs h.1)

  -- What a function tells apart is distinct.
  pub Distinct-map : (xs : List A) → Distinct (map (λ x. g (f x)) xs) → Distinct (map f xs)
  Distinct-map [] h = tt
  Distinct-map (x ∷ xs) h = (All-ne (f x) xs h.0, Distinct-map xs h.1)

module _ {A : Type 0} where
  pub In-All_from : (P : A → Type 0) (xs : List A) → ((x : A) → In x xs → P x) → All P xs
  In-All_from P [] h = tt
  In-All_from P (x ∷ xs) h = (h x (inl refl), In-All_from P xs (λ y m. h y (inr m)))

  -- Every element of a list is in it.
  pub All-In : (xs : List A) → All (λ x. In x xs) xs
  All-In xs = In-All_from (λ x. In x xs) xs (λ x m. m)

  pub All-map_In : (P Q : A → Type 0) (xs : List A) → ((x : A) → P x → Q x) → All P xs → All Q xs
  All-map_In P Q [] f h = tt
  All-map_In P Q (x ∷ xs) f h = (f x h.0, All-map_In P Q xs f h.1)

  pub Any-of_In : (P : A → Type 0) (x : A) (xs : List A) → In x xs → P x → Any P xs
  Any-of_In P x (y ∷ xs) (inl e) p = inl (rw e p)
  Any-of_In P x (y ∷ xs) (inr m) p = inr (Any-of_In P x xs m p)
  Any-of_In P x [] m p = absurd m

module _ {A B : Type 0} (P : B → Type 0) (Q : A → Type 0) where
  pub All-map :
      (f : A → B) → ((x : A) → Q x → P (f x)) → (xs : List A) → All Q xs → All P (map f xs)
  All-map f step [] h = tt
  All-map f step (x ∷ xs) h = (step x h.0, All-map f step xs h.1)

  pub All-somes :
      (f : A → Option B)
      → ((x : A) (b : B) → Q x → f x ≡ some b → P b)
      → (xs : List A) → All Q xs
      → All P (somes (map f xs))
  All-somes f step [] h = tt
  All-somes f step (x ∷ xs) h = go (f x) (λ b e. step x b h.0 e) (All-somes f step xs h.1)
    where
      go :
          (o : Option B)
          → ((b : B) → o ≡ some b → P b)
          → All P (somes (map f xs))
          → All P (somes (o ∷ map f xs))
      go none k rest = rest
      go (some b) k rest = (k b refl, rest)

  pub All-traverse :
      (f : A → Outcome (Option B))
      → ((x : A) (b : B) → Q x → f x ≡ ok (some b) → P b)
      → (xs : List A) (os : List (Option B)) → All Q xs
      → traverse f xs ≡ ok os
      → All P (somes os)
  All-traverse f step [] [] h e = tt
  All-traverse f step [] (o ∷ os) h e = cc
  All-traverse f step (x ∷ xs) os h e =
      let (o, fx, more) = >>=-eq-ok (f x) (λ o. traverse f xs >>= λ os. ok (o ∷ os)) e in
      let (os', rest, same) = >>=-eq-ok (traverse f xs) (λ os. ok (o ∷ os)) more in
      go o os' os (λ b e. step x b h.0 (rw fx (ap ok e))) (All-traverse f step xs os' h.1 rest)
        (cc same)
    where
      go :
          (o : Option B) (os' os : List (Option B))
          → ((b : B) → o ≡ some b → P b)
          → All P (somes os')
          → o ∷ os' ≡ os
          → All P (somes os)
      go none os' os k rest e = rw (← e) rest
      go (some b) os' os k rest e = rw (← e) (k b refl, rest)

  Any-somes_cons : (o : Option B) (bs : List (Option B)) → Any P (somes bs) → Any P (somes (o ∷ bs))
  Any-somes_cons none bs h = h
  Any-somes_cons (some b) bs h = inr h

  -- The element that has a result has it among the results.
  pub Any-somes :
      (f : A → Option B) (x : A) (b : B) (xs : List A)
      → In x xs
      → f x ≡ some b
      → P b
      → Any P (somes (map f xs))
  Any-somes f x b (y ∷ xs) (inl e) fx p = let fy : f y ≡ some b = rw e fx in rw fy (inl p)
  Any-somes f x b (y ∷ xs) (inr m) fx p =
      Any-somes_cons (f y) (map f xs) (Any-somes f x b xs m fx p)
  Any-somes f x b [] m fx p = absurd m

  pub Any-traverse :
      (f : A → Outcome (Option B)) (x : A)
      → ((o : Option B) → f x ≡ ok o → (b : B) × (o ≡ some b) × P b)
      → (xs : List A) (os : List (Option B)) → In x xs
      → traverse f xs ≡ ok os
      → Any P (somes os)
  Any-traverse f x step [] os m e = absurd m
  Any-traverse f x step (y ∷ xs) os m e =
      let (o, fy, more) = >>=-eq-ok (f y) (λ o. traverse f xs >>= λ os. ok (o ∷ os)) e in
      let (os', rest, same) = >>=-eq-ok (traverse f xs) (λ os. ok (o ∷ os)) more in
      place m o os' os fy (λ k. Any-traverse f x step xs os' k rest) (cc same)
    where
      first :
          (o : Option B) (os' : List (Option B))
          → (b : B) × (o ≡ some b) × P b
          → Any P (somes (o ∷ os'))
      first o os' (b, e, p) = rw e (inl p)

      place :
          In x (y ∷ xs)
          → (o : Option B) (os' os : List (Option B)) → f y ≡ ok o
          → (In x xs → Any P (somes os'))
          → o ∷ os' ≡ os
          → Any P (somes os)
      place (inl e) o os' os fy k same = rw (← same) (first o os' (step o (rw (← e) fy)))
      place (inr m) o os' os fy k same = rw (← same) (Any-somes_cons o os' (k m))

module _ {A B : Type 0} (P : B → Type 0) (f : A → B) where
  pub Any-map-In : (x : A) (xs : List A) → In x xs → P (f x) → Any P (map f xs)
  Any-map-In x (y ∷ xs) (inl e) p = inl (rw e p)
  Any-map-In x (y ∷ xs) (inr m) p = inr (Any-map-In x xs m p)
  Any-map-In x [] m p = absurd m

module _ {A B : Type 0} (f : A → Outcome B) where
  -- A loop whose rounds all return, returns.
  pub traverse_total :
      (xs : List A) → All (λ x. (b : B) × (f x ≡ ok b)) xs → (bs : List B) × (traverse f xs ≡ ok bs)
  traverse_total [] h = ([], refl)
  traverse_total (x ∷ xs) ((b, e), h) =
      let (bs, rest) = traverse_total xs h in (b ∷ bs, rw (e, rest))
