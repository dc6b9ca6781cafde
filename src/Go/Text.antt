-- ===== src/Go/Text.antt =====
-- Go strings as their code points, and the functions of `strings` and `unicode` that walk them.
use Prim.Native.Char.{code}
use binboi_go.Base.{
  ◌≢◌, ◌++◌, sym, ℕ, String, ◌≡◌, refl, ap, ◌∙◌, Bool, true, false, ◌||◌, ◌&&◌, List, [], ◌∷◌, leb,
  ◌==◌, if◌then◌else◌, ℕ_discrete, Bool-cases, inl, inr, ite,
}

abbrev pub Str : Type 0
Str = List ℕ

-- A string literal.
abbrev pub lit : String → Str
lit String.[] = []
lit (String.◌∷◌ c s) = code c ∷ lit s

-- Equality of strings, decided.
unfoldable pub str_discrete : Discrete Str
unfolding ℕ_discrete
str_discrete = hlevel ℕ_discrete

-- `s == ""`.
abbrev pub is_empty : Str → Bool
is_empty [] = true
is_empty (c ∷ s) = false

-- unicode.IsSpace.
unfoldable pub is_space : ℕ → Bool
is_space c =
    (leb 9 c && leb c 13)
    || c == 32
    || c == 0x85
    || c == 0xa0
    || c == 0x1680
    || (leb 0x2000 c && leb c 0x200a)
    || c == 0x2028
    || c == 0x2029
    || c == 0x202f
    || c == 0x205f
    || c == 0x3000

unfoldable pub trim_left : Str → Str
trim_left [] = []
trim_left (c ∷ s) = if is_space c then trim_left s else c ∷ s

-- The character in front of a trimmed rest: dropped when it is a space and nothing is left of it.
abbrev pub keep_unless_space : ℕ → Str → Str
keep_unless_space c [] = if is_space c then [] else c ∷ []
keep_unless_space c (d ∷ s) = c ∷ d ∷ s

unfoldable pub trim_right : Str → Str
trim_right [] = []
trim_right (c ∷ s) = keep_unless_space c (trim_right s)

-- strings.TrimSpace.
unfoldable pub trim_space : Str → Str
unfolding trim_left trim_right is_space
trim_space s = trim_right (trim_left s)

keep_unless_space-keep :
    (c : ℕ) (s : Str)
    → trim_right s ≡ s
    → trim_right (keep_unless_space c s) ≡ keep_unless_space c s
unfolding trim_right
keep_unless_space-keep c [] e = elim (Bool-cases (is_space c)) [
  | inl y ↦ rw y
  | inr n ↦ rw n (rw n)
]
keep_unless_space-keep c (d ∷ s) e = ap (keep_unless_space c) e

trim_right-trim_right : (s : Str) → trim_right (trim_right s) ≡ trim_right s
unfolding trim_right
trim_right-trim_right [] = refl
trim_right-trim_right (c ∷ s) = keep_unless_space-keep c (trim_right s) (trim_right-trim_right s)

-- A string that does not begin with a space.
abbrev StartsClean : Str → Type 0
StartsClean [] = Unit {0}
StartsClean (c ∷ s) = is_space c ≡ false

trim_left-StartsClean : (s : Str) → StartsClean (trim_left s)
unfolding trim_left
trim_left-StartsClean [] = tt
trim_left-StartsClean (c ∷ s) = elim (Bool-cases (is_space c)) [
  | inl y ↦ rw y (trim_left-StartsClean s)
  | inr n ↦ rw n n
]

trim_left_clean : (s : Str) → StartsClean s → trim_left s ≡ s
unfolding trim_left
trim_left_clean [] h = refl
trim_left_clean (c ∷ s) h = rw h

keep_unless_space-StartsClean :
    (c : ℕ) (s : Str) → is_space c ≡ false → StartsClean (keep_unless_space c s)
keep_unless_space-StartsClean c [] h = rw h h
keep_unless_space-StartsClean c (d ∷ s) h = h

trim_right-StartsClean : (s : Str) → StartsClean s → StartsClean (trim_right s)
unfolding trim_right
trim_right-StartsClean [] h = tt
trim_right-StartsClean (c ∷ s) h = keep_unless_space-StartsClean c (trim_right s) h

-- Trimming twice is trimming once.
pub trim_space-trim_space : (s : Str) → trim_space (trim_space s) ≡ trim_space s
trim_space-trim_space s =
    unfold trim_space in
    ap trim_right (
      trim_left_clean (trim_right (trim_left s))
        (trim_right-StartsClean (trim_left s) (trim_left-StartsClean s)))
    ∙ trim_right-trim_right (trim_left s)

trim_space-trim_right : (s : Str) → trim_space s ≡ s → trim_right s ≡ s
trim_space-trim_right s e =
    ap trim_right (sym e) ∙ unfold trim_space in trim_right-trim_right (trim_left s) ∙ e

keep_append : (c : ℕ) (s t : Str) → t ≢ [] → keep_unless_space c (s ++ t) ≡ c ∷ (s ++ t)
keep_append c [] [] n = absurd (n refl)
keep_append c [] (d ∷ t) n = refl
keep_append c (d ∷ s) t n = refl

trim_right_append : (s t : Str) → trim_right t ≡ t → t ≢ [] → trim_right (s ++ t) ≡ s ++ t
unfolding trim_right
trim_right_append [] t e n = e
trim_right_append (c ∷ s) t e n =
    ap (keep_unless_space c) (trim_right_append s t e n) ∙ keep_append c s t n

-- A trimmed, nonempty end and a clean first character make a trimmed string.
pub trim_space_inner :
    (c : ℕ) (s t : Str)
    → is_space c ≡ false
    → t ≢ []
    → trim_space t ≡ t
    → trim_space (c ∷ (s ++ t)) ≡ c ∷ (s ++ t)
trim_space_inner c s t h n e =
    unfold trim_space in
    ap trim_right (trim_left_clean (c ∷ (s ++ t)) h)
    ∙ trim_right_append (c ∷ s) t (trim_space-trim_right t e) n

trim_test : trim_space (lit "  a b ") ≡ lit "a b"
unfolding trim_space
trim_test = refl

discrete_test : ite (str_discrete (lit "ab") (lit "ab")) true false ≡ true
unfolding str_discrete
discrete_test = refl
