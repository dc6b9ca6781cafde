-- ===== src/Go/Unicode.antt =====
-- The tables of package unicode, which the program reads through `strings.ToLower` and the character
-- classes: a parameter, with what is documented of the ASCII range.
use binboi_go.Base.{ℕ, ◌+◌, ◌<◌, ◌≡◌, Bool, ◌||◌, ◌&&◌, map, leb, if◌then◌else◌, refl}
use binboi_go.Go.Text.{Str}

abbrev pub ascii_upper : ℕ → Bool
ascii_upper c = leb b'A' c && leb c b'Z'

abbrev pub ascii_letter : ℕ → Bool
ascii_letter c = ascii_upper c || (leb b'a' c && leb c b'z')

abbrev pub ascii_digit : ℕ → Bool
ascii_digit c = leb b'0' c && leb c b'9'

abbrev pub ascii_lower : ℕ → ℕ
ascii_lower c = if ascii_upper c then c + 32 else c

pub record Unicode : Type 0 where
  pub is_letter : ℕ → Bool
  pub is_digit : ℕ → Bool
  pub lower : ℕ → ℕ
  pub is_letter_ascii : (c : ℕ) → c < 128 → is_letter c ≡ ascii_letter c
  pub is_digit_ascii : (c : ℕ) → c < 128 → is_digit c ≡ ascii_digit c
  pub lower_ascii : (c : ℕ) → c < 128 → lower c ≡ ascii_lower c

-- strings.ToLower
abbrev pub to_lower : Unicode → Str → Str
to_lower u = map u.lower

-- The tables cut to the ASCII range.
abbrev pub ascii_tables : Unicode
ascii_tables = record {
  is_letter = ascii_letter;
  is_digit = ascii_digit;
  lower = ascii_lower;
  is_letter_ascii = λ c h. refl;
  is_digit_ascii = λ c h. refl;
  lower_ascii = λ c h. refl;
}
