-- ===== src/Float/Whole.antt =====
-- A float type for tests on the order: whole numbers up to 1000, whose negation counts down from
-- there.
use Prim.Native.Char.{code}
use query_smith.Prelude.{
  ℕ, ◌+◌, ◌-◌, ◌*◌, ◌/◌, ◌&&◌, String, Option, none, some, ltb, leb, ◌==◌, refl, if◌then◌else◌,
  arith,
}
use query_smith.Prelude.Int.{pos}
use query_smith.Prelude.Outcome.{ok}
use query_smith.Text.Numerals.{show_ℕ}
use query_smith.Float.{Float}
use query_smith.Float.Ranked.{IsRanked}

abbrev read_digits : ℕ → String → Option ℕ
read_digits n String.[] = some n
read_digits n (String.◌∷◌ c s) =
    let d = code c in if leb 48 d && leb d 57 then read_digits (n * 10 + (d - 48)) s else none

-- all numbers above 1000 are one
abbrev capped : ℕ → ℕ
capped a = if leb a 1000 then a else 1000

instance abbrev pub whole : Float ℕ
whole = record {
  ratio = λ n d. n / d;
  le = λ a b. leb (capped a) (capped b);
  lt = λ a b. ltb (capped a) (capped b);
  eq = λ a b. capped a == capped b;
  neg = λ a. 1000 - a;
  add = λ a b. a + b;
  div = λ a b. a / b;
  of_text = read_digits 0;
  to_int = λ a. ok (pos a);
  round = λ a. ok (pos a);
  show = show_ℕ;
  show_2g = show_ℕ;
  show_grouped_2f = show_ℕ;
  show_json = show_ℕ;
}

pub whole-IsRanked : IsRanked whole
whole-IsRanked = record {
  rank = capped;
  eq_rank = λ a b. refl;
  lt_rank = λ a b. refl;
  neg_eq = λ a b. ground arith;
  neg_lt = λ a b. ground arith;
}
