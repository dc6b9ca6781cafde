-- ===== src/Auth/Issued.antt =====
-- A token that internal/auth/store.go issues is one that internal/auth/validator.go accepts.
use binboi_go.Base.{ℕ, ◌≡◌, ◌≢◌, refl, false, List, [], ◌∷◌, ◌++◌, none, some, ok, All, arith}
use binboi_go.Go.Text.{
  Str, lit, is_empty, is_space, trim_left, trim_right, trim_space, trim_space_inner,
}
use binboi_go.Go.Unicode.{Unicode, to_lower}
use binboi_go.Tunnel.Engine.{hex_encode}
use binboi_go.Tunnel.Engine.Labels.{IsPlain}
use binboi_go.Auth.Token.{
  Crypto, IsBase32, prefix_of, raw_of, split_last, has_prefix, prefix_from_raw_token,
}

-- The base32 alphabet in lower case.
lower_base32 : (u : Unicode) (c : ℕ) → IsBase32 c → IsPlain (u.lower c)
lower_base32 u c h = ground (arith, u.lower_ascii c)

lower_All : (u : Unicode) (s : Str) → All IsBase32 s → All IsPlain (to_lower u s)
lower_All u [] h = tt
lower_All u (c ∷ s) h = (lower_base32 u c h.0, lower_All u s h.1)

lower_not_empty : (u : Unicode) (s : Str) → s ≢ [] → to_lower u s ≢ []
lower_not_empty u [] h = h
lower_not_empty u (c ∷ s) h = λ e. cc

plain_space : (c : ℕ) → IsPlain c → is_space c ≡ false
unfolding is_space
plain_space c h = ground arith

plain_trim_right : (s : Str) → All IsPlain s → trim_right s ≡ s
unfolding trim_right
plain_trim_right [] h = refl
plain_trim_right (c ∷ []) h = rw (plain_space c h.0) refl
plain_trim_right (c ∷ d ∷ s) h = rw (plain_trim_right (d ∷ s) h.1) refl

plain_trim : (s : Str) → All IsPlain s → trim_space s ≡ s
unfolding trim_space trim_left
plain_trim [] h = refl
plain_trim (c ∷ s) h = rw (plain_space c h.0) (plain_trim_right (c ∷ s) h)

plain_no_underscore : (s : Str) → All IsPlain s → split_last s ≡ none
unfolding split_last
plain_no_underscore [] h = refl
plain_no_underscore (c ∷ s) h = rw (plain_no_underscore s h.1) (ground arith)

split_last_middle :
    (front back : Str)
    → split_last back ≡ none
    → split_last (front ++ (b'_' ∷ back)) ≡ some (front, back)
unfolding split_last
split_last_middle [] back h = rw h refl
split_last_middle (c ∷ front) back h = rw (split_last_middle front back h) refl

not_empty : (s : Str) → s ≢ [] → is_empty s ≡ false
not_empty [] h = absurd (h refl)
not_empty (c ∷ s) h = refl

module _ (c : Crypto) (suffix secret : List ℕ) (some_bytes : secret ≢ []) where
  -- The last part of the raw token.
  abbrev tail : Str
  tail = to_lower c.unicode (c.base32 secret)

  tail-IsPlain : All IsPlain tail
  tail-IsPlain = lower_All c.unicode (c.base32 secret) (c.base32_alphabet secret)

  tail_not_empty : tail ≢ []
  tail_not_empty =
      lower_not_empty c.unicode (c.base32 secret) (c.base32_not_empty secret some_bytes)

  pub trim-raw_of : trim_space (raw_of c suffix secret) ≡ raw_of c suffix secret
  trim-raw_of =
      trim_space_inner b'b' (lit "in_live" ++ (b'_' ∷ to_lower c.unicode (hex_encode suffix)))
        (b'_' ∷ tail) (unfold is_space in refl) (λ e. cc)
        (trim_space_inner b'_' [] tail (unfold is_space in refl) tail_not_empty
          (plain_trim tail tail-IsPlain))

  -- A raw token gives back the prefix that it was made with.
  pub prefix-raw_of : prefix_from_raw_token (raw_of c suffix secret) ≡ ok (prefix_of c suffix)
  unfolding prefix_from_raw_token has_prefix
  prefix-raw_of =
      rw
        (
          trim-raw_of,
          split_last_middle (prefix_of c suffix) tail (plain_no_underscore tail tail-IsPlain),
          not_empty tail tail_not_empty,
        )
        refl
