-- ===== src/Usage/Flush/Keyed.antt =====
-- The map of buckets stays well formed: no key twice, and every bucket under its own key.
use binboi_go.Base.{◌≡◌, refl, none, some, List, [], ◌∷◌, arith, All, inl, inr, ite, Option-cases}
use binboi_go.Go.Text.{Str, str_discrete}
use binboi_go.Go.Map.{Map, get, put, get-put}
use binboi_go.Usage.Model.{Time}
use binboi_go.Usage.Tracker.{Calendar, Bucket, Tracker, bucket_key}
use binboi_go.Usage.Flush.{FlushItem, cleaned, mark_dirty, mark_all_dirty}

-- No key stands twice.
abbrev pub Distinct : Map Bucket → Type 0
Distinct [] = Unit {0}
Distinct ((k, b) ∷ m) = (get m k ≡ none) × Distinct m

-- A bucket lies under the key of its user, period and period start.
abbrev pub IsKeyed : Calendar → Str × Bucket → Type 0
IsKeyed cal (k, b) = k ≡ bucket_key cal b.usage.user_id b.usage.period b.usage.period_start

pub record WellKeyed (cal : Calendar) (m : Map Bucket) : Type 0 where
  pub distinct : Distinct m
  pub keyed : All (IsKeyed cal) m

put-Distinct : (m : Map Bucket) (k : Str) (b : Bucket) → Distinct m → Distinct (put m k b)
unfolding put get
put-Distinct [] k b h = (refl, tt)
put-Distinct ((j, c) ∷ m) k b h =
    elim (str_discrete j k) as (λ x. Distinct (ite x ((k, b) ∷ m) ((j, c) ∷ put m k b))) [
      | yes e ↦ (ground (arith, h.0), h.1)
      | no n ↦ (ground (arith, h.0, get-put m k b j), put-Distinct m k b h.1)
    ]

put-IsKeyed :
    (cal : Calendar) (m : Map Bucket) (k : Str) (b : Bucket)
    → All (IsKeyed cal) m
    → IsKeyed cal (k, b)
    → All (IsKeyed cal) (put m k b)
unfolding put
put-IsKeyed cal [] k b h n = (n, tt)
put-IsKeyed cal ((j, c) ∷ m) k b h n =
    elim (str_discrete j k) as (λ x. All (IsKeyed cal) (ite x ((k, b) ∷ m) ((j, c) ∷ put m k b))) [
      | yes e ↦ (n, h.1)
      | no e ↦ (h.0, put-IsKeyed cal m k b h.1 n)
    ]

pub put-WellKeyed :
    (cal : Calendar) (m : Map Bucket) (k : Str) (b : Bucket)
    → WellKeyed cal m
    → IsKeyed cal (k, b)
    → WellKeyed cal (put m k b)
put-WellKeyed cal m k b w n = record {
  distinct = put-Distinct m k b w.distinct;
  keyed = put-IsKeyed cal m k b w.keyed n;
}

-- A bucket that is found lies under its own key.
pub get-IsKeyed :
    (cal : Calendar) (m : Map Bucket) (k : Str) (b : Bucket)
    → All (IsKeyed cal) m
    → get m k ≡ some b
    → IsKeyed cal (k, b)
unfolding get
get-IsKeyed cal [] k b h e = cc
get-IsKeyed cal ((j, c) ∷ m) k b h e = ground (arith, h.0, get-IsKeyed cal m k b h.1)

get-cleaned-none :
    (t : Tracker) (now : Time) (m : Map Bucket) (k : Str)
    → get m k ≡ none
    → get (cleaned t now m) k ≡ none
unfolding cleaned get
get-cleaned-none t now [] k e = refl
get-cleaned-none t now ((j, b) ∷ m) k e = ground (arith, get-cleaned-none t now m k)

cleaned-Distinct :
    (t : Tracker) (now : Time) (m : Map Bucket) → Distinct m → Distinct (cleaned t now m)
unfolding cleaned
cleaned-Distinct t now [] h = tt
cleaned-Distinct t now ((k, b) ∷ m) h =
    (get-cleaned-none t now m k h.0, cleaned-Distinct t now m h.1)

cleaned-IsKeyed :
    (cal : Calendar) (t : Tracker) (now : Time) (m : Map Bucket)
    → All (IsKeyed cal) m
    → All (IsKeyed cal) (cleaned t now m)
unfolding cleaned
cleaned-IsKeyed cal t now [] h = tt
cleaned-IsKeyed cal t now ((k, b) ∷ m) h = (ground (arith, h.0), cleaned-IsKeyed cal t now m h.1)

pub cleaned-WellKeyed :
    (cal : Calendar) (t : Tracker) (now : Time) (m : Map Bucket)
    → WellKeyed cal m
    → WellKeyed cal (cleaned t now m)
cleaned-WellKeyed cal t now m w = record {
  distinct = cleaned-Distinct t now m w.distinct;
  keyed = cleaned-IsKeyed cal t now m w.keyed;
}

mark_dirty-WellKeyed :
    (cal : Calendar) (m : Map Bucket) (k : Str) → WellKeyed cal m → WellKeyed cal (mark_dirty m k)
unfolding mark_dirty
mark_dirty-WellKeyed cal m k w = elim (Option-cases (get m k)) [
  | inl e ↦ rw (e, mark_dirty) w
  | inr (b, e) ↦ rw (e, mark_dirty) (put-WellKeyed cal m k _ w (get-IsKeyed cal m k b w.keyed e))
]

pub mark_all_dirty-WellKeyed :
    (cal : Calendar) (m : Map Bucket) (is : List FlushItem)
    → WellKeyed cal m
    → WellKeyed cal (mark_all_dirty m is)
unfolding mark_all_dirty
mark_all_dirty-WellKeyed cal m [] w = w
mark_all_dirty-WellKeyed cal m (i ∷ is) w =
    mark_all_dirty-WellKeyed cal (mark_dirty m i.key) is (mark_dirty-WellKeyed cal m i.key w)
