-- ===== src/Tunnel/Engine.antt =====
-- internal/tunnel/tunnel.go: subdomain labels, public hosts and URLs.
pub mod Labels
use binboi_go.Base.{
  ℕ, ◌+◌, ◌-◌, ◌/◌, ◌%◌, Bool, true, false, not, ◌||◌, ◌&&◌, List, [], ◌∷◌, ◌++◌, Option, none,
  some, if◌then◌else◌, ite, ltb, ◌==◌,
}
use binboi_go.Go.Text.{Str, lit, str_discrete, is_empty, is_space, trim_space}
use binboi_go.Go.Unicode.{Unicode, to_lower}

-- What the loop of `sanitizeLabel` carries: the builder and `prevDash`.
pub record Label : Type 0 where
  pub text : Str
  pub prev_dash : Bool

unfoldable pub sanitize_step : Unicode → Label → ℕ → Label
sanitize_step u l r =
    if u.is_letter r || u.is_digit r
    then record { text = l.text ++ r ∷ []; prev_dash = false }
    else if r == b'-' || r == b'_' || is_space r
    then (if not l.prev_dash && not (is_empty l.text)
        then record { text = l.text ++ b'-' ∷ []; prev_dash = true }
        else l)
    else l

unfoldable pub sanitize_loop : Unicode → Label → Str → Label
sanitize_loop u l [] = l
sanitize_loop u l (r ∷ rs) = sanitize_loop u (sanitize_step u l r) rs

-- strings.Trim(s, "-")
unfoldable pub trim_dash_left : Str → Str
trim_dash_left [] = []
trim_dash_left (c ∷ s) = if c == b'-' then trim_dash_left s else c ∷ s

abbrev keep_unless_dash : ℕ → Str → Str
keep_unless_dash c [] = if c == b'-' then [] else c ∷ []
keep_unless_dash c (d ∷ s) = c ∷ d ∷ s

unfoldable pub trim_dash_right : Str → Str
trim_dash_right [] = []
trim_dash_right (c ∷ s) = keep_unless_dash c (trim_dash_right s)

unfoldable pub trim_dashes : Str → Str
unfolding trim_dash_left trim_dash_right
trim_dashes s = trim_dash_right (trim_dash_left s)

-- sanitizeLabel
unfoldable pub sanitize_label : Unicode → Str → Str
unfolding sanitize_loop sanitize_step trim_dashes is_space
sanitize_label u name =
    trim_dashes (sanitize_loop u (record { text = []; prev_dash = false }) (to_lower u name)).text

-- HostForSubdomain, for the engine of a public host
unfoldable pub host_for_subdomain : Unicode → Str → Str → Str
host_for_subdomain u public_host subdomain =
    let label = sanitize_label u subdomain in
    if is_empty label
    then public_host
    else if is_empty public_host
    then label
    else label ++ (b'.' ∷ public_host)

-- PublicURLForSubdomain
unfoldable pub public_url_for_subdomain : Unicode → Str → Str → Str → Str
unfolding str_discrete
public_url_for_subdomain u public_host subdomain protocol =
    let host = host_for_subdomain u public_host subdomain in
    ite (str_discrete protocol (lit "tcp")) (lit "tcp://" ++ host)
      (ite (str_discrete protocol (lit "https")) (lit "https://" ++ host) (lit "http://" ++ host))

pub record Route : Type 0 where
  pub upstream : Str
  pub headers : List (Str × Str)

pub record Descriptor : Type 0 where
  pub session_id : Str
  pub name : Str
  pub subdomain : Str
  pub host : Str
  pub public_url : Str
  pub protocol : Str
  pub route : Route

-- Prepare
unfoldable pub prepare : Unicode → Str → Str → Str → Str → Str → Route → Descriptor
prepare u public_host session_id name requested protocol route =
    let label = sanitize_label u requested in
    let subdomain = if is_empty label then session_id else label in
    record {
      session_id = session_id;
      name = name;
      subdomain = subdomain;
      host = host_for_subdomain u public_host subdomain;
      public_url = public_url_for_subdomain u public_host subdomain protocol;
      protocol = protocol;
      route = route;
    }

-- hex.EncodeToString
unfoldable pub hex_digit : ℕ → ℕ
hex_digit n = if ltb n 10 then b'0' + n else b'a' + n - 10

unfoldable pub hex_encode : List ℕ → Str
unfolding hex_digit
hex_encode [] = []
hex_encode (b ∷ bs) = hex_digit (b / 16) ∷ hex_digit (b % 16) ∷ hex_encode bs

-- GenerateSubdomain, for the outcome of the read of five random bytes
unfoldable pub generate_subdomain : Unicode → Option (List ℕ) → Option Str
unfolding hex_encode
generate_subdomain u none = none
generate_subdomain u (some buf) = some (to_lower u (hex_encode buf))

-- strings.TrimSuffix where the suffix is there: the string in front of it.
unfoldable pub cut_suffix : Str → Str → Option Str
cut_suffix [] suffix = ite (str_discrete [] suffix) (some []) none
cut_suffix (c ∷ s) suffix =
    ite (str_discrete (c ∷ s) suffix) (some [])
      (elim (cut_suffix s suffix) [ none ↦ none | some front ↦ some (c ∷ front) ])

-- strings.Contains(s, ".")
unfoldable pub has_dot : Str → Bool
has_dot [] = false
has_dot (c ∷ s) = c == b'.' || has_dot s

abbrev pub label_of : Unicode → Option Str → Str
label_of u none = []
label_of u (some subdomain) =
    if is_empty subdomain || has_dot subdomain then [] else sanitize_label u subdomain

-- ExtractSubdomain
unfoldable pub extract_subdomain : Unicode → Str → Str → Str
extract_subdomain u host public_host =
    let h = trim_space (to_lower u host) in
    let p = trim_space (to_lower u public_host) in
    if is_empty h || is_empty p
    then []
    else ite (str_discrete h p) [] (label_of u (cut_suffix h (b'.' ∷ p)))
