-- ===== src/Narration/Response/Laws.antt =====
-- The texts collected from an answer, index by index.
use query_smith.Prelude.{
  ℕ, String, true, List, [], ◌∷◌, ◌++◌, Option, none, some, ltb, ◌==◌, ◌≡◌, refl, arith,
  if◌then◌else◌,
}
use query_smith.Prelude.Int.{ℤ, pos, negsuc}
use query_smith.Text.{strip, truthy}
use query_smith.Json.{Json, Fields, obj}
use query_smith.Narration.Response.{
  Texts, text_at, answer_list, entry, add_text, collect_texts, collect_listed, extract_texts,
  entry_of,
}

-- Is the entry for this index?
abbrev text_for : ℕ → Option (ℤ × String) → Option String
text_for i none = none
text_for i (some (negsuc n, text)) = none
text_for i (some (pos j, text)) = if j == i then some (strip text) else none

abbrev first {ℓ} : {A : Type ℓ} → Option A → Option A → Option A
first none later = later
first (some a) later = some a

-- The text of the first entry of the list that is an object with this index and a text that is
-- not blank.
abbrev pub first_text : String → ℕ → List Json → Option String
first_text key i [] = none
first_text key i (item ∷ items) = first (text_for i (entry key item)) (first_text key i items)

text_at-concat :
    (i j : ℕ) (s : String) (texts : Texts)
    → text_at i (texts ++ (j, s) ∷ []) ≡ first (text_at i texts) (if j == i then some s else none)
text_at-concat i j s [] = refl
text_at-concat i j s ((k, t) ∷ texts) = ground (arith, text_at-concat i j s texts)

text_at-add_text :
    (i n : ℕ) (result : Texts) (e : Option (ℤ × String))
    → text_at i (add_text n result e)
      ≡ first (text_at i result) (if ltb i n then text_for i e else none)
unfolding add_text
text_at-add_text i n result none = ground arith
text_at-add_text i n result (some (negsuc k, text)) = ground arith
text_at-add_text i n result (some (pos j, text)) =
    ground (arith, text_at-concat i j (strip text) result)

text_at-collect_texts :
    (key : String) (i n : ℕ) (result : Texts) (items : List Json)
    → text_at i (collect_texts key n result items)
      ≡ first (text_at i result) (if ltb i n then first_text key i items else none)
unfolding collect_texts
text_at-collect_texts key i n result [] = ground arith
text_at-collect_texts key i n result (item ∷ items) = ground (
  arith,
  text_at-collect_texts key i n (add_text n result (entry key item)) items,
  text_at-add_text i n result (entry key item),
)

-- The entries of an answer under a key, none where it is not a list of them.
abbrev pub listed : Option (List Json) → List Json
listed none = []
listed (some items) = items

text_at-collect_listed :
    (key : String) (n i : ℕ) (o : Option (List Json))
    → text_at i (collect_listed key n o) ≡ (if ltb i n then first_text key i (listed o) else none)
text_at-collect_listed key n i none = ground arith
text_at-collect_listed key n i (some items) = text_at-collect_texts key i n [] items

-- What is collected for an index in range is the stripped text of the first usable entry for it,
-- whatever the other entries are; for an index out of range it is nothing.
pub text_at-extract_texts :
    (key : String) (raw : Option Fields) (n i : ℕ)
    → text_at i (extract_texts key raw n)
      ≡ (if ltb i n then first_text key i (listed (answer_list "findings" raw)) else none)
unfolding extract_texts
text_at-extract_texts key raw n i = text_at-collect_listed key n i (answer_list "findings" raw)

-- what an entry gives is not blank
entry_of-truthy :
    (idx : Option ℤ) (text : Option String) (x : ℤ) (s : String)
    → entry_of idx text ≡ some (x, s)
    → truthy (strip s) ≡ true
entry_of-truthy idx text x s e = ground arith

entry-truthy :
    (key : String) (item : Json) (x : ℤ) (s : String)
    → entry key item ≡ some (x, s)
    → truthy (strip s) ≡ true
unfolding entry
entry-truthy key (obj item) x s e = entry_of-truthy _ _ x s e
entry-truthy key _ x s e = cc

-- A text is never blank.
abbrev pub Usable : Option String → Type 0
Usable none = Unit
Usable (some s) = truthy s ≡ true

text_for-Usable :
    (i : ℕ) (e : Option (ℤ × String))
    → ((x : ℤ) (s : String) → e ≡ some (x, s) → truthy (strip s) ≡ true)
    → Usable (text_for i e)
text_for-Usable i none h = tt
text_for-Usable i (some (negsuc n, text)) h = tt
text_for-Usable i (some (pos j, text)) h = ground (arith, h (pos j) text refl)

pub first_text-Usable : (key : String) (i : ℕ) (items : List Json) → Usable (first_text key i items)
first_text-Usable key i [] = tt
first_text-Usable key i (item ∷ items) = ground (
  arith,
  text_for-Usable i (entry key item) (entry-truthy key item),
  first_text-Usable key i items,
)
