-- ===== src/Float/Ranked.antt =====
-- What theorems on the order of floats assume of it.
use query_smith.Prelude.{ℕ, ◌≡◌, ltb, ◌==◌}
use query_smith.Float.{Float}

-- Floats other than NaN compare as the numbers of a finite list do, and negation turns their order
-- round.
pub record IsRanked {F : Type 0} (fl : Float F) : Type 0 where
  pub rank : F → ℕ
  pub eq_rank : (a b : F) → fl.eq a b ≡ (rank a == rank b)
  pub lt_rank : (a b : F) → fl.lt a b ≡ ltb (rank a) (rank b)
  pub neg_eq : (a b : F) → fl.eq (fl.neg a) (fl.neg b) ≡ fl.eq a b
  pub neg_lt : (a b : F) → fl.lt (fl.neg a) (fl.neg b) ≡ fl.lt b a
