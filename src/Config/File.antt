-- ===== src/Config/File.antt =====
-- What Load answers, whatever the file holds, and what it answers after Save.
use binboi_go.Base.{
  ◌≡◌, refl, false, Option, none, some, ok, ok-injective, Bool-cases, inl, inr, arith, subst,
}
use binboi_go.Go.Text.{Str, is_empty}
use binboi_go.Go.Map.{Map, get, put, get-put_self}
use binboi_go.Config.{
  Config, ConfigError, validate, default_config, Json, Faults, checked, decoded, opened, load,
  written, save,
}
use binboi_go.Config.Valid.{IsValid, validate-IsValid, default-IsValid}
use binboi_go.Config.Defaults.{read_into, with_defaults, read_into_default, with_defaults-valid}

checked_ok : (o : Option ConfigError) (c d : Config) → checked o c ≡ ok d → (o ≡ none) × (c ≡ d)
checked_ok none c d h = (refl, ok-injective h)
checked_ok (some e) c d h = absurd (cc)

decoded-IsValid : (o : Option Config) (d : Config) → decoded o ≡ ok d → IsValid d
decoded-IsValid none d h = absurd (cc)
decoded-IsValid (some c) d h =
    let (v, e) = checked_ok (validate c) c d h in subst IsValid e (validate-IsValid c v)

opened-IsValid :
    {T : Type 0} (json : Json T) (o : Option T) (d : Config) → opened json o ≡ ok d → IsValid d
opened-IsValid json none d h = absurd (cc)
opened-IsValid json (some text) d h = decoded-IsValid (json.decode default_config text) d h

-- Whatever the file system and the decoder give, the settings that Load returns are valid: those of
-- a file, and the defaults for an empty path.
pub load-IsValid :
    {T : Type 0} (json : Json T) (files : Map T) (path : Str) (c : Config)
    → load json files path ≡ ok c
    → IsValid c
unfolding load
load-IsValid json files path c h = elim (Bool-cases (is_empty path)) [
  | inl y ↦
      subst IsValid (ok-injective (rw y at h)) (validate-IsValid default_config default-IsValid)
  | inr n ↦ opened-IsValid json (get files path) c (rw n at h)
]

saved :
    {T : Type 0} (json : Json T) (f : Faults T) (files : Map T) (path : Str) (c : Config)
    → (save json f files path c).0 ≡ none
    → (is_empty path ≡ false)
      × (validate c ≡ none)
      × ((save json f files path c).1 ≡ put files path (json.encode c))
unfolding save
saved json f files path c h = elim (Bool-cases (is_empty path)) [
  | inl y ↦ absurd (cc (rw y at h))
  | inr n ↦ let (v, w) = write_done json f files path c (validate c) (rw n at h) in (n, v, rw n w)
]
  where
    write_done :
        {T : Type 0} (json : Json T) (f : Faults T) (files : Map T) (path : Str) (c : Config)
        (o : Option ConfigError)
        → (written json f files path c o).0 ≡ none
        → (o ≡ none) × ((written json f files path c o).1 ≡ put files path (json.encode c))
    write_done json f files path c (some e) h = absurd (cc)
    write_done json f files path c none h = (refl, ground (arith))

-- Save and then Load. The hypothesis is what encoding/json documents: settings that are decoded into
-- others keep, for a field tagged `omitempty`, the old value where the new one is zero. Then, once
-- Save has returned no error, Load gives the saved settings back, but for the remote timeout, the
-- flow control and the usage limits: each zero among them comes back as its default. So a limit of
-- zero, which stands for no limit, comes back as a limit.
pub save_then_load :
    {T : Type 0} (json : Json T) (f : Faults T) (files : Map T) (path : Str) (c : Config)
    → ((b x : Config) → json.decode b (json.encode x) ≡ some (read_into b x))
    → (save json f files path c).0 ≡ none
    → load json (save json f files path c).1 path ≡ ok (with_defaults c)
unfolding load
save_then_load json f files path c documented h =
    let (n, v, w) = saved json f files path c h in
    rw
      (
        n,
        w,
        get-put_self files path (json.encode c),
        documented default_config c,
        read_into_default c,
        with_defaults-valid c v,
      )
      refl
