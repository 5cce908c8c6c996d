-- ===== src/Argparse/Laws.antt =====
-- Reading a namespace that is complete.
use query_smith.Prelude.{String, Bool, Option, some, ◌≡◌, refl}
use query_smith.Prelude.Outcome.{ok}
use query_smith.Argparse.{
  as_text, as_float, boolean_optional, Setting, text, number, whole, switch, Fits, text_of,
  number_of, switch_of,
}

module _ {F : Type 0} where
  pub text_of-Fits :
      (name : String) (o : Option (Setting F))
      → (v : Setting F) × (o ≡ some v) × Fits as_text v
      → (s : String) × (o ≡ some (text s)) × (text_of name o ≡ ok s)
  unfolding text_of
  text_of-Fits name o (text s, e, h) = (s, e, rw e refl)
  text_of-Fits name o (number x, e, h) = absurd h
  text_of-Fits name o (whole n, e, h) = absurd h
  text_of-Fits name o (switch b, e, h) = absurd h

  pub number_of-Fits :
      (name : String) (o : Option (Setting F))
      → (v : Setting F) × (o ≡ some v) × Fits as_float v
      → (x : F) × (o ≡ some (number x)) × (number_of name o ≡ ok x)
  unfolding number_of
  number_of-Fits name o (text s, e, h) = absurd h
  number_of-Fits name o (number x, e, h) = (x, e, rw e refl)
  number_of-Fits name o (whole n, e, h) = absurd h
  number_of-Fits name o (switch b, e, h) = absurd h

  pub switch_of-Fits :
      (name : String) (o : Option (Setting F))
      → (v : Setting F) × (o ≡ some v) × Fits boolean_optional v
      → (b : Bool) × (o ≡ some (switch b)) × (switch_of name o ≡ ok b)
  unfolding switch_of
  switch_of-Fits name o (text s, e, h) = absurd h
  switch_of-Fits name o (number x, e, h) = absurd h
  switch_of-Fits name o (whole n, e, h) = absurd h
  switch_of-Fits name o (switch b, e, h) = (b, e, rw e refl)
