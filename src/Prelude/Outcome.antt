-- ===== src/Prelude/Outcome.antt =====
-- Exceptions as values. `except E as exc` is a case on the exception's constructor, and what no
-- handler names goes on to the caller.
use Prim.Native.Nat.{ℕ}
use Prim.Native.String.{String}
use mathlib.Core.Path.{◌≡◌, refl}
use mathlib.Core.Logic.{◌⊎◌, inl, inr}
use mathlib.Core.List.{List, [], ◌∷◌}

pub data Exn : Type 0 where
  -- `QueryValidationError`, `DBCaptureError` and `OllamaClientError` of the program
  query_validation_error db_capture_error ollama_client_error : String → Exn
  -- `sqlglot.errors.ParseError` and, its sibling, `sqlglot.errors.TokenError`
  parse_error token_error : String → Exn
  -- `pyodbc.Error`
  pyodbc_error : String → Exn
  -- `ValueError` and `OverflowError` of Python, `XMLSyntaxError` of lxml
  value_error overflow_error xml_syntax_error : String → Exn
  -- `urllib.error.HTTPError` with its code, any other `OSError`, and `json.JSONDecodeError`
  http_error : ℕ → Exn
  os_error json_decode_error : String → Exn
  -- `NotConnectedError` and `NoResultAvailableError` of the web application's stores
  not_connected_error no_result_available_error : String → Exn
  -- any other exception
  other_error : String → Exn

pub data Outcome {ℓ} (A : Type ℓ) : Type ℓ where
  ok : A → Outcome A
  err : Exn → Outcome A

module _ {ℓ κ} {A : Type ℓ} {B : Type κ} where
  infixl 5 ◌>>=◌ ◌>>◌
  -- An exception skips the rest.
  abbrev pub ◌>>=◌ : Outcome A → (A → Outcome B) → Outcome B
  err raised >>= rest = err raised
  ok value >>= rest = rest value

  -- a statement, and what follows it
  abbrev pub ◌>>◌ : Outcome A → Outcome B → Outcome B
  err raised >> rest = err raised
  ok value >> rest = rest

  -- Inversion of a chain that succeeds.
  pub >>=-eq-ok :
      (first : Outcome A) (rest : A → Outcome B) {result : B}
      → (first >>= rest) ≡ ok result
      → (value : A) × (first ≡ ok value) × (rest value ≡ ok result)
  >>=-eq-ok (err raised) rest h = cc
  >>=-eq-ok (ok value) rest h = (value, refl, h)

module _ {ℓ κ} {A : Type ℓ} {B : Type κ} where
  -- `[f(x) for x in xs]`, where `f` may raise
  abbrev pub traverse : (A → Outcome B) → List A → Outcome (List B)
  traverse f [] = ok []
  traverse f (x ∷ xs) = do ok ((← f x) ∷ (← traverse f xs))

module _ {ℓ} {A : Type ℓ} where
  pub ok-injective : {a b : A} → ok a ≡ ok b → a ≡ b
  ok-injective e = cc

  -- The call returns.
  abbrev pub Returns : Outcome A → Type 0
  Returns (ok a) = Unit
  Returns (err e) = ⊥

  pub Returns-ok : (r : Outcome A) → Returns r → (a : A) × (r ≡ ok a)
  Returns-ok (ok a) h = (a, refl)
  Returns-ok (err e) h = absurd h

  pub Outcome-cases : (r : Outcome A) → ((a : A) × (r ≡ ok a)) ⊎ ((e : Exn) × (r ≡ err e))
  Outcome-cases (ok a) = inl (a, refl)
  Outcome-cases (err e) = inr (e, refl)
