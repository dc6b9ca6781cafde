-- ===== src/Tunnel/Engine/Labels.antt =====
-- What the labels of internal/tunnel/tunnel.go look like.
use binboi_go.Base.{
  ℕ, ◌≤◌, ◌≡◌, ◌≢◌, ◌⊎◌, refl, sym, ap, ◌∙◌, true, false, ◌||◌, [], ◌∷◌, ◌++◌, Option, none, some,
  arith, All, ◌==◌, length, length-append, if_neg, subst,
}
use mathlib.Core.List.{append-nil, append_assoc, map-append}
use mathlib.Core.Path.{ap₂}
use binboi_go.Go.Text.{Str, str_discrete, is_empty, is_space, trim_space, trim_space_inner}
use binboi_go.Go.Unicode.{Unicode, to_lower}
use binboi_go.Tunnel.Engine.{
  Label, sanitize_step, sanitize_loop, trim_dash_left, trim_dash_right, trim_dashes, sanitize_label,
  host_for_subdomain, extract_subdomain, cut_suffix, has_dot, label_of,
}

-- A lower-case ASCII letter or a digit.
abbrev pub IsPlain : ℕ → Type 0
IsPlain c = ((b'a' ≤ c) × (c ≤ b'z')) ⊎ ((b'0' ≤ c) × (c ≤ b'9'))

module _ (u : Unicode) where
  plain_lower : (c : ℕ) → IsPlain c → u.lower c ≡ c
  plain_lower c h = ground (arith, u.lower_ascii c)

  plain_alnum : (c : ℕ) → IsPlain c → (u.is_letter c || u.is_digit c) ≡ true
  plain_alnum c h = ground (arith, u.is_letter_ascii c, u.is_digit_ascii c)

  to_lower_plain : (s : Str) → All IsPlain s → to_lower u s ≡ s
  to_lower_plain [] h = refl
  to_lower_plain (c ∷ s) h = rw (plain_lower c h.0, to_lower_plain s h.1)

  loop_plain : (l : Label) (s : Str) → All IsPlain s → (sanitize_loop u l s).text ≡ l.text ++ s
  unfolding sanitize_loop
  loop_plain l [] h = sym (append-nil l.text)
  loop_plain l (c ∷ s) h =
      let step : (sanitize_step u l c) ≡ record { text = l.text ++ c ∷ []; prev_dash = false } =
        unfold sanitize_step in rw (plain_alnum c h.0) in
      ap (λ x. (sanitize_loop u x s).text) step
      ∙ loop_plain (record { text = l.text ++ c ∷ []; prev_dash = false }) s h.1
      ∙ append_assoc l.text (c ∷ []) s

trim_right_plain : (s : Str) → All IsPlain s → trim_dash_right s ≡ s
unfolding trim_dash_right
trim_right_plain [] h = refl
trim_right_plain (c ∷ []) h = ground arith
trim_right_plain (c ∷ d ∷ s) h = rw (trim_right_plain (d ∷ s) h.1)

trim_plain : (s : Str) → All IsPlain s → trim_dashes s ≡ s
unfolding trim_dashes trim_dash_left
trim_plain [] h = refl
trim_plain (c ∷ s) h =
    let e : (c == b'-') ≡ false = ground arith in rw e (trim_right_plain (c ∷ s) h)

-- A label of lower-case letters and digits is left as it is.
pub sanitize_label_plain : (u : Unicode) (s : Str) → All IsPlain s → sanitize_label u s ≡ s
unfolding sanitize_label
sanitize_label_plain u s h =
    let start : Label = record { text = []; prev_dash = false } in
    let looped : (sanitize_loop u start (to_lower u s)).text ≡ s =
      rw (to_lower_plain u s h) (loop_plain u start s h) in
    ap trim_dashes looped ∙ trim_plain s h

-- A string is not a longer string.
append-ne : (c : ℕ) (s t : Str) → (c ∷ (s ++ t)) ≢ t
append-ne c s t e = absurd (omega (arith, ap length e, length-append s t))

cons_front :
    (c : ℕ) {s : Str} (o : Option Str)
    → o ≡ some s
    → elim o [ none ↦ none | some front ↦ some (c ∷ front) ] ≡ some (c ∷ s)
cons_front c o e = rw e

-- A label and the suffix behind it come apart again.
cut_suffix_back : (s t : Str) → cut_suffix (s ++ t) t ≡ some s
unfolding cut_suffix
cut_suffix_back [] [] = ground arith
cut_suffix_back [] (d ∷ t) = ground arith
cut_suffix_back (c ∷ s) t =
    if_neg (str_discrete (c ∷ (s ++ t)) t) (append-ne c s t) _ _
    ∙ cons_front c (cut_suffix (s ++ t) t) (cut_suffix_back s t)

has_dot_plain : (s : Str) → All IsPlain s → has_dot s ≡ false
unfolding has_dot
has_dot_plain [] h = refl
has_dot_plain (c ∷ s) h = ground (arith, has_dot_plain s h.1)

to_lower_append : (u : Unicode) (s t : Str) → to_lower u (s ++ t) ≡ to_lower u s ++ to_lower u t
to_lower_append u s t = map-append u.lower s t

host_lower :
    (u : Unicode) (p s : Str)
    → All IsPlain s
    → to_lower u p ≡ p
    → to_lower u (s ++ (b'.' ∷ p)) ≡ s ++ (b'.' ∷ p)
host_lower u p s h l =
    to_lower_append u s (b'.' ∷ p)
    ∙ ap₂ (λ x y. x ++ y) (to_lower_plain u s h)
        (ap₂ (λ x y. x ∷ y) (u.lower_ascii b'.' (omega arith)) l)

host_plain :
    (u : Unicode) (p s : Str)
    → All IsPlain s
    → s ≢ []
    → p ≢ []
    → host_for_subdomain u p s ≡ s ++ (b'.' ∷ p)
host_plain u p [] h n m = absurd (n refl)
host_plain u [] (c ∷ s) h n m = absurd (m refl)
host_plain u (d ∷ p) (c ∷ s) h n m =
    unfold host_for_subdomain in rw (sanitize_label_plain u (c ∷ s) h)

host_ne : (p s : Str) → (s ++ (b'.' ∷ p)) ≢ p
host_ne p s e = absurd (omega (arith, ap length e, length-append s (b'.' ∷ p)))

label_of_plain : (u : Unicode) (s : Str) → All IsPlain s → s ≢ [] → label_of u (some s) ≡ s
label_of_plain u [] h n = absurd (n refl)
label_of_plain u (c ∷ s) h n = rw (has_dot_plain (c ∷ s) h) (sanitize_label_plain u (c ∷ s) h)

not_empty : (s : Str) → s ≢ [] → is_empty s ≡ false
not_empty [] n = absurd (n refl)
not_empty (c ∷ s) n = refl

append_not_empty : (s : Str) (c : ℕ) (t : Str) → is_empty (s ++ (c ∷ t)) ≡ false
append_not_empty [] c t = refl
append_not_empty (d ∷ s) c t = refl

host_trim :
    (p s : Str)
    → All IsPlain s
    → s ≢ []
    → p ≢ []
    → trim_space p ≡ p
    → trim_space (s ++ (b'.' ∷ p)) ≡ s ++ (b'.' ∷ p)
host_trim p [] h n m t = absurd (n refl)
host_trim p (c ∷ s) h n m t =
    let joined : (s ++ (b'.' ∷ [])) ++ p ≡ s ++ (b'.' ∷ p) = append_assoc s (b'.' ∷ []) p in
    subst (λ (x : Str). trim_space (c ∷ x) ≡ c ∷ x) joined
      (trim_space_inner c (s ++ (b'.' ∷ [])) p (unfold is_space in ground arith) m t)

-- The hosts that the engine makes are read back: for a public host that ToLower and TrimSpace leave
-- as it is, and a nonempty label of lower-case letters and digits.
pub extract-host :
    (u : Unicode) (public_host s : Str)
    → All IsPlain s
    → s ≢ []
    → public_host ≢ []
    → to_lower u public_host ≡ public_host
    → trim_space public_host ≡ public_host
    → extract_subdomain u (host_for_subdomain u public_host s) public_host ≡ s
extract-host u p s h n m l t =
    ap (λ x. extract_subdomain u x p) (host_plain u p s h n m)
    ∙ unfold extract_subdomain in
      rw
        (
          host_lower u p s h l,
          l,
          host_trim p s h n m t,
          t,
          append_not_empty s b'.' p,
          not_empty p m,
        )
        (if_neg (str_discrete (s ++ (b'.' ∷ p)) p) (host_ne p s) _ _
          ∙ ap (label_of u) (cut_suffix_back s (b'.' ∷ p))
          ∙ label_of_plain u s h n)
