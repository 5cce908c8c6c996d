-- ===== src/Float/Sample.antt =====
-- A concrete float type for tests: hundredths, and one infinite value, on which `int(x)` raises.
use Prim.Native.Char.{code}
use query_smith.Prelude.{
  ℕ, zero, suc, ◌+◌, ◌-◌, ◌*◌, ◌/◌, ◌%◌, Bool, true, false, not, ◌&&◌, String, ◌<>◌, Option, none,
  some, leb, if◌then◌else◌,
}
use query_smith.Prelude.Int.{ℤ, pos, negsuc}
use query_smith.Prelude.Outcome.{Outcome, ok, err, overflow_error}
use query_smith.Text.Numerals.{show_ℤ}
use query_smith.Float.{Float}

pub data Cents : Type 0 where
  finite : ℤ → Cents
  infinite : Cents

abbrev le_ℤ : ℤ → ℤ → Bool
le_ℤ (pos a) (pos b) = leb a b
le_ℤ (pos a) (negsuc b) = false
le_ℤ (negsuc a) (pos b) = true
le_ℤ (negsuc a) (negsuc b) = leb b a

abbrev pub le_cents : Cents → Cents → Bool
le_cents a infinite = true
le_cents infinite (finite b) = false
le_cents (finite a) (finite b) = le_ℤ a b

abbrev neg_ℤ : ℤ → ℤ
neg_ℤ (pos zero) = pos zero
neg_ℤ (pos (suc n)) = negsuc n
neg_ℤ (negsuc n) = pos (suc n)

abbrev neg_cents : Cents → Cents
neg_cents (finite a) = finite (neg_ℤ a)
neg_cents infinite = infinite

abbrev add_cents : Cents → Cents → Cents
add_cents (finite (pos a)) (finite (pos b)) = finite (pos (a + b))
add_cents a b = infinite

abbrev div_cents : Cents → Cents → Cents
div_cents (finite (pos a)) (finite (pos b)) = finite (pos (a * 100 / b))
div_cents a b = infinite

abbrev trunc_cents : Cents → Outcome ℤ
trunc_cents (finite (pos a)) = ok (pos (a / 100))
trunc_cents (finite (negsuc a)) = ok (neg_ℤ (pos (suc a / 100)))
trunc_cents infinite = err (overflow_error "cannot convert float infinity to integer")

abbrev digits : ℕ → String → Option ℤ
digits n String.[] = some (pos (n * 100))
digits n (String.◌∷◌ c s) =
    let d = code c in if leb 48 d && leb d 57 then digits (n * 10 + (d - 48)) s else none

abbrev read_cents : String → Option Cents
read_cents s = elim (digits 0 s) [ none ↦ none | some n ↦ some (finite n) ]

abbrev show_cents : Cents → String
show_cents (finite (pos a)) = show_ℤ (pos (a / 100)) <> "." <> show_ℤ (pos (a % 100 / 10))
show_cents (finite (negsuc a)) = "-" <> show_ℤ (pos (suc a / 100))
show_cents infinite = "inf"

-- the float with `n` hundredths
abbrev pub cents : ℕ → Cents
cents n = finite (pos n)

instance abbrev pub cents_float : Float Cents
cents_float = record {
  ratio = λ n d. finite (pos (n * 100 / d));
  le = le_cents;
  lt = λ a b. not (le_cents b a);
  eq = λ a b. le_cents a b && le_cents b a;
  neg = neg_cents;
  add = add_cents;
  div = div_cents;
  of_text = read_cents;
  to_int = trunc_cents;
  round = trunc_cents;
  show = show_cents;
  show_2g = show_cents;
  show_grouped_2f = show_cents;
  show_json = show_cents;
}
