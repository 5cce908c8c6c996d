-- ===== src/Text/Laws.antt =====
-- What stripping does.
use Prim.Native.Char.{Char}
use query_smith.Prelude.{String, Bool, true, false, ◌≡◌, refl, arith, [], ◌∷◌}
use query_smith.Text.{rstrip_by, strip, contains, ends_with_char, join, lower}

module _ (p : Char → Bool) where
  rstrip_by_idem : (s : String) → rstrip_by p (rstrip_by p s) ≡ rstrip_by p s
  unfolding rstrip_by
  rstrip_by_idem String.[] = refl
  rstrip_by_idem (String.◌∷◌ c s) = ground (arith, rstrip_by_idem s)

text_tests :
    (strip "  a b \n" ≡ "a b")
    × (strip " \t" ≡ "")
    × (contains "Seek" "Clustered Index Seek" ≡ true)
    × (contains "Seek" "Table Scan" ≡ false)
    × (ends_with_char ";" "a;" ≡ true)
    × (join ", " ("a" ∷ "b" ∷ []) ≡ "a, b")
    × (lower "SELECT x" ≡ "select x")
unfolding strip contains ends_with_char join lower
text_tests = (refl, refl, refl, refl, refl, refl, refl)
