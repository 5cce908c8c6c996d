-- ===== src/Narration/FixEngine/Valid.antt =====
-- `_extract_field` of narration/fix_engine.py: what it keeps, and its validator.
use query_smith.Prelude.{
  ℕ, String, List, [], ◌∷◌, ◌++◌, Option, none, some, is_some, ltb, ◌≡◌, refl, arith, All,
  Bool-cases, inl, inr,
}
use query_smith.Prelude.Int.{ℤ, pos, negsuc}
use query_smith.Prelude.Outcome.{Outcome, ok, err, query_validation_error, >>=-eq-ok}
use query_smith.Text.{strip}
use query_smith.Json.{Json, Fields}
use query_smith.Narration.Response.{Texts, text_at, answer_list, entry}
use query_smith.Narration.FixEngine.{
  keep, add_valid, collect_valid, collect_valid_listed, extract_field,
}

-- What holds of the text, if there is one.
abbrev pub OnSome : (String → Type 0) → Option String → Type 0
OnSome P none = Unit
OnSome P (some s) = P s

module _ (P : String → Type 0) where
  abbrev pub AllTexts : Texts → Type 0
  AllTexts = All (λ (e : ℕ × String). P e.1)

  AllTexts-concat :
      (texts : Texts) (i : ℕ) (s : String) → AllTexts texts → P s → AllTexts (texts ++ (i, s) ∷ [])
  AllTexts-concat [] i s h p = (p, tt)
  AllTexts-concat (t ∷ texts) i s h p = (h.0, AllTexts-concat texts i s h.1 p)

  pub text_at-AllTexts : (i : ℕ) (texts : Texts) → AllTexts texts → OnSome P (text_at i texts)
  text_at-AllTexts i [] h = tt
  text_at-AllTexts i ((j, s) ∷ texts) h = ground (arith, text_at-AllTexts i texts h.1)

  module _ (validator : String → Outcome String) (valid : (s r : String) → validator s ≡ ok r → P s)
      (n : ℕ) where
    keep-AllTexts :
        (i : ℕ) (s : String) (texts out : Texts) (r : Outcome String)
        → validator s ≡ r
        → AllTexts texts
        → keep validator n i s texts r ≡ ok out
        → AllTexts out
    keep-AllTexts i s texts out (ok r) e h k =
        let same : texts ++ (i, s) ∷ [] ≡ out = cc k in
        rw (← same) (AllTexts-concat texts i s h (valid s r e))
    keep-AllTexts i s texts out (err (query_validation_error m)) e h k =
        let same : texts ≡ out = cc k in rw (← same) h
    keep-AllTexts i s texts out (err x) e h k = cc

    add_valid-AllTexts :
        (texts out : Texts) (e : Option (ℤ × String))
        → AllTexts texts
        → add_valid validator n texts e ≡ ok out
        → AllTexts out
    unfolding add_valid
    add_valid-AllTexts texts out none h k = let same : texts ≡ out = cc k in rw (← same) h
    add_valid-AllTexts texts out (some (negsuc m, v)) h k =
        let same : texts ≡ out = cc k in rw (← same) h
    add_valid-AllTexts texts out (some (pos i, v)) h k = elim (Bool-cases (ltb i n)) [
      | inl t ↦ elim (Bool-cases (is_some (text_at i texts))) [
        | inl u ↦ let same : texts ≡ out = ground arith in rw (← same) h
        | inr u ↦ keep-AllTexts i (strip v) texts out (validator (strip v)) refl h (ground arith)
      ]
      | inr f ↦ let same : texts ≡ out = ground arith in rw (← same) h
    ]

    pub collect_valid-AllTexts :
        (key : String) (items : List Json) (texts out : Texts)
        → AllTexts texts
        → collect_valid validator n key texts items ≡ ok out
        → AllTexts out
    unfolding collect_valid
    collect_valid-AllTexts key [] texts out h k = let same : texts ≡ out = cc k in rw (← same) h
    collect_valid-AllTexts key (item ∷ items) texts out h k =
        let (next, added, rest) =
          >>=-eq-ok (add_valid validator n texts (entry key item))
            (λ result. collect_valid validator n key result items) k in
        collect_valid-AllTexts key items next out
          (add_valid-AllTexts texts next (entry key item) h added) rest

    pub extract_field-AllTexts :
        (raw : Option Fields) (key : String) (out : Texts)
        → extract_field validator n raw key ≡ ok out
        → AllTexts out
    unfolding extract_field
    extract_field-AllTexts raw key out k = listed (answer_list "fixes" raw) k
      where
        listed :
            (l : Option (List Json))
            → collect_valid_listed validator n key l ≡ ok out
            → AllTexts out
        listed none k = let same : [] ≡ out = cc k in rw (← same) tt
        listed (some items) k = collect_valid-AllTexts key items [] out tt k
