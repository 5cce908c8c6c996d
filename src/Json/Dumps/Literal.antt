-- ===== src/Json/Dumps/Literal.antt =====
-- What a reader of JSON takes a text of `json.dumps` for: the grammar of string literals.
use Prim.Native.Char.{Char, char, code, IsScalar}
use Prim.Native.Nat.{Ordering, compare}
use query_smith.Prelude.{
  ℕ, String, ◌<>◌, Bool, true, false, ◌≡◌, ◌≢◌, ◌<◌, ◌≤◌, refl, arith, ltb, leb, ◌==◌, ◌&&◌, ◌||◌,
  ◌+◌, ◌-◌, ◌*◌, ◌/◌, ◌%◌, if◌then◌else◌,
}
use query_smith.Text.Repr.{hex_digit}
use query_smith.Json.Dumps.{unicode_escape, escape_char, escape, dumps_text}

-- Four hexadecimal digits behind a backslash and a u stand for a number.
pub data Unit16 (n : ℕ) (piece : String) : Type 0 where
  unit :
      (a b c d : ℕ)
      → a < 16
      → b < 16
      → c < 16
      → d < 16
      → n ≡ a * 4096 + b * 256 + c * 16 + d
      → piece ≡ "\\u" <> hex_digit a <> hex_digit b <> hex_digit c <> hex_digit d
      → Unit16 n piece

unicode_escape-Unit16 : (n : ℕ) → n < 65536 → Unit16 n (unicode_escape n)
unfolding unicode_escape
unicode_escape-Unit16 n h =
    unit (n / 4096) (n / 256 % 16) (n / 16 % 16) (n % 16) (omega arith) (omega arith) (omega arith)
      (omega arith) (omega arith) refl

-- How a literal spells a character: as itself, by one of the short escapes, by its number, or by the
-- numbers of a surrogate pair.
pub data Spells (c : Char) (piece : String) : Type 0 where
  itself : 32 ≤ code c → code c ≢ 34 → code c ≢ 92 → piece ≡ String.◌∷◌ c String.[] → Spells c piece
  quote : code c ≡ 34 → piece ≡ "\\\"" → Spells c piece
  backslash : code c ≡ 92 → piece ≡ "\\\\" → Spells c piece
  line_feed : code c ≡ 10 → piece ≡ "\\n" → Spells c piece
  carriage_return : code c ≡ 13 → piece ≡ "\\r" → Spells c piece
  tab : code c ≡ 9 → piece ≡ "\\t" → Spells c piece
  backspace : code c ≡ 8 → piece ≡ "\\b" → Spells c piece
  form_feed : code c ≡ 12 → piece ≡ "\\f" → Spells c piece
  by_number : Unit16 (code c) piece → Spells c piece
  by_pair :
      (high low : ℕ) (first second : String)
      → high < 1024
      → low < 1024
      → Unit16 (55296 + high) first
      → Unit16 (56320 + low) second
      → code c ≡ 65536 + (high * 1024 + low)
      → piece ≡ first <> second
      → Spells c piece

-- What stands between the quotes of a literal for the text.
pub data Literal : String → String → Type 0 where
  done : Literal String.[] String.[]
  next :
      (c : Char) (s piece rest : String)
      → Spells c piece
      → Literal s rest
      → Literal (String.◌∷◌ c s) (piece <> rest)

-- Characters end at U+10FFFF.
IsScalar-lt : (n : ℕ) → IsScalar n → n < 1114112
IsScalar-lt n v = at (compare n 55296) (compare 57343 n) (compare n 1114112) refl refl refl v
  where
    at :
        (o p q : Ordering)
        → compare n 55296 ≡ o
        → compare 57343 n ≡ p
        → compare n 1114112 ≡ q
        → IsScalar n
        → n < 1114112
    at Ordering.lt p q e f g v = ground arith
    at o p Ordering.lt e f g v = ground arith
    at Ordering.eq Ordering.lt Ordering.eq e f g v = absurd (rw (e, f, g) at v)
    at Ordering.eq Ordering.lt Ordering.gt e f g v = absurd (rw (e, f, g) at v)
    at Ordering.eq Ordering.eq q e f g v = absurd (rw (e, f) at v)
    at Ordering.eq Ordering.gt q e f g v = absurd (rw (e, f) at v)
    at Ordering.gt Ordering.lt Ordering.eq e f g v = absurd (rw (e, f, g) at v)
    at Ordering.gt Ordering.lt Ordering.gt e f g v = absurd (rw (e, f, g) at v)
    at Ordering.gt Ordering.eq q e f g v = absurd (rw (e, f) at v)
    at Ordering.gt Ordering.gt q e f g v = absurd (rw (e, f) at v)

code_lt : (c : Char) → code c < 1114112
code_lt (char n v) = IsScalar-lt n v

module _ (c : Char) where
  abbrev n : ℕ
  n = code c

  -- The characters that `json.dumps` escapes by their number, and those that it leaves.
  spelled_by_number : n < 65536 → Spells c (unicode_escape n)
  spelled_by_number h = by_number (unicode_escape-Unit16 n h)

  spelled_by_pair :
      65536 ≤ n
      → Spells c (
          unicode_escape (55296 + (n - 65536) / 1024)
          <> unicode_escape (56320 + (n - 65536) % 1024))
  spelled_by_pair h =
      let bound = code_lt c in
      let low : (n - 65536) % 1024 < 1024 = omega arith in
      let high : (n - 65536) / 1024 < 1024 = omega (arith, bound) in
      by_pair ((n - 65536) / 1024) ((n - 65536) % 1024)
        (unicode_escape (55296 + (n - 65536) / 1024)) (unicode_escape (56320 + (n - 65536) % 1024))
        high low (unicode_escape-Unit16 _ (omega (arith, high)))
        (unicode_escape-Unit16 _ (omega (arith, low))) (omega arith) refl

Spells-if :
    {c : Char} (b : Bool) (p q : String)
    → (b ≡ true → Spells c p)
    → (b ≡ false → Spells c q)
    → Spells c (if b then p else q)
Spells-if true p q h k = h refl
Spells-if false p q h k = k refl

escape_char-Spells : (c : Char) → Spells c (escape_char c)
unfolding escape_char
escape_char-Spells c =
    Spells-if (code c == 34) _ _ (λ e. quote (ground arith) refl)
      λ no_quote.
        Spells-if (code c == 92) _ _ (λ e. backslash (ground arith) refl)
          λ no_backslash.
            Spells-if (code c == 10) _ _ (λ e. line_feed (ground arith) refl)
              λ e.
                Spells-if (code c == 13) _ _ (λ e. carriage_return (ground arith) refl)
                  λ e.
                    Spells-if (code c == 9) _ _ (λ e. tab (ground arith) refl)
                      λ e.
                        Spells-if (code c == 8) _ _ (λ e. backspace (ground arith) refl)
                          λ e.
                            Spells-if (code c == 12) _ _ (λ e. form_feed (ground arith) refl)
                              λ e.
                                Spells-if
                                  (ltb (code c) 32 || leb 127 (code c) && ltb (code c) 65536) _ _
                                  (λ e. spelled_by_number c (ground arith))
                                  λ e.
                                    Spells-if (leb 65536 (code c)) _ _
                                      (λ e. spelled_by_pair c (ground arith))
                                      λ f. itself (ground arith) (ground arith) (ground arith) refl

escape-Literal : (s : String) → Literal s (escape s)
unfolding escape
escape-Literal String.[] = done
escape-Literal (String.◌∷◌ c s) =
    next c s (escape_char c) (escape s) (escape_char-Spells c) (escape-Literal s)

-- A literal for a text, with its quotes.
pub record Quotes (s literal : String) : Type 0 where
  pub inside : String
  pub spelled : Literal s inside
  pub quoted : literal ≡ "\"" <> inside <> "\""

pub dumps_text-Quotes : (s : String) → Quotes s (dumps_text s)
unfolding dumps_text
dumps_text-Quotes s = record { inside = escape s; spelled = escape-Literal s; quoted = refl }
