-- ===== src/Text/Numerals.antt =====
-- Decimal text of an `int`, plain and with `,` between the thousands (`f"{n:,}"`).
use query_smith.Prelude.{
  ℕ, zero, suc, ◌+◌, ◌/◌, ◌%◌, String, ◌<>◌, ◌≡◌, refl, ltb, ◌==◌, if◌then◌else◌,
}
use query_smith.Prelude.Int.{ℤ, pos, negsuc}

abbrev pub digit : ℕ → String
digit zero = "0"
digit (suc zero) = "1"
digit (suc (suc zero)) = "2"
digit (suc (suc (suc zero))) = "3"
digit (suc (suc (suc (suc zero)))) = "4"
digit (suc (suc (suc (suc (suc zero))))) = "5"
digit (suc (suc (suc (suc (suc (suc zero)))))) = "6"
digit (suc (suc (suc (suc (suc (suc (suc zero))))))) = "7"
digit (suc (suc (suc (suc (suc (suc (suc (suc zero)))))))) = "8"
digit _ = "9"

-- The digits of `n` before those of `tail`; `col` digits of `tail` stand behind the last comma, and
-- `every` tells after how many a comma goes. The fuel `suc n` is enough, since `n / 10 < n`.
decimal_from : ℕ → ℕ → ℕ → ℕ → String → String
decimal_from zero every col n tail = tail
decimal_from (suc fuel) every col n tail =
    let full = col == every in
    let tail' = digit (n % 10) <> (if full then "," <> tail else tail) in
    let col' : ℕ = if full then 1 else col + 1 in
    let rest = decimal_from fuel every col' (n / 10) tail' in if ltb n 10 then tail' else rest

-- `str(n)`; no comma is reached, as there are at most `n + 1` digits
unfoldable pub show_ℕ : ℕ → String
unfolding decimal_from
show_ℕ n = decimal_from (suc n) (suc (suc n)) 0 n ""

unfoldable pub show_ℤ : ℤ → String
unfolding show_ℕ
show_ℤ (pos n) = show_ℕ n
show_ℤ (negsuc n) = "-" <> show_ℕ (suc n)

-- `f"{n:,}"`
unfoldable pub show_grouped : ℤ → String
unfolding decimal_from
show_grouped (pos n) = decimal_from (suc n) 3 0 n ""
show_grouped (negsuc n) = "-" <> decimal_from (suc (suc n)) 3 0 (suc n) ""

show_tests :
    (show_ℕ 0 ≡ "0")
    × (show_ℕ 1048576 ≡ "1048576")
    × (show_grouped (pos 100) ≡ "100")
    × (show_grouped (pos 1048576) ≡ "1,048,576")
    × (show_grouped (negsuc 999) ≡ "-1,000")
unfolding show_ℕ show_grouped
show_tests = (refl, refl, refl, refl, refl)
