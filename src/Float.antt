-- ===== src/Float.antt =====
-- Python's `float` as an interface: a type `F` with the operations, comparisons and formats that
-- the program uses. No law is built in, so a definition holds for NaN and the infinities as well;
-- a theorem that needs a law has it as a hypothesis. `int(x)` raises on those values.
pub mod Ranked
pub mod Sample
pub mod Whole
use query_smith.Prelude.{ℕ, Bool, String, Option}
use query_smith.Prelude.Int.{ℤ}
use query_smith.Prelude.Outcome.{Outcome}

pub record Float (F : Type 0) : Type 0 where
  -- the literal n / d, as in 80.0 and 0.1
  pub ratio : ℕ → ℕ → F
  pub le : F → F → Bool
  pub lt : F → F → Bool
  pub eq : F → F → Bool
  pub neg : F → F
  pub add : F → F → F
  pub div : F → F → F
  -- `float(s)`: `none` is a `ValueError`
  pub of_text : String → Option F
  -- `int(x)`
  pub to_int : F → Outcome ℤ
  -- `int(round(x))`
  pub round : F → Outcome ℤ
  -- `f"{x}"`, `f"{x:.2g}"` and `f"{x:,.2f}"`
  pub show : F → String
  pub show_2g : F → String
  pub show_grouped_2f : F → String
  -- what `json.dumps` writes
  pub show_json : F → String
