-- ===== src/Authenv/Sorting.antt =====
-- sort.Strings of the standard library: the strings in ascending byte order.
use mathlib.Core.List.{foldr, Perm}
use mathlib.Core.List.Perm
use tom_ai_agent.Base.{
  ltb, ◌==◌, if◌then◌else◌, Bool-cases, length, All, str_eq, GoString, suc, ◌≡◌, refl, ap, ◌∙◌, inl,
  inr, Bool, true, false, ◌&&◌, ◌||◌, List, [], ◌∷◌, arith,
}

-- `a <= b` on strings: byte by byte, a prefix first.
pub str_leb : GoString → GoString → Bool
str_leb [] t = true
str_leb (a ∷ s) [] = false
str_leb (a ∷ s) (b ∷ t) = ltb a b || (a == b && str_leb s t)

pub place : GoString → List GoString → List GoString
place k [] = k ∷ []
place k (j ∷ ks) = if str_leb k j then k ∷ j ∷ ks else j ∷ place k ks

unfoldable pub sort_strings : List GoString → List GoString
unfolding str_leb place
sort_strings = foldr place []

str_leb_total : (s t : GoString) → str_leb s t ≡ false → str_leb t s ≡ true
unfolding str_leb
str_leb_total [] t e = cc
str_leb_total (a ∷ s) [] e = refl
str_leb_total (a ∷ s) (b ∷ t) e = ground (arith, str_leb_total s t)

str_leb_antisymm : (s t : GoString) → str_leb s t ≡ true → str_leb t s ≡ true → s ≡ t
unfolding str_leb
str_leb_antisymm [] [] e f = refl
str_leb_antisymm [] (b ∷ t) e f = cc
str_leb_antisymm (a ∷ s) [] e f = cc
str_leb_antisymm (a ∷ s) (b ∷ t) e f = ground (arith, str_leb_antisymm s t)

str_leb_trans : (s t u : GoString) → str_leb s t ≡ true → str_leb t u ≡ true → str_leb s u ≡ true
unfolding str_leb
str_leb_trans [] t u e f = refl
str_leb_trans (a ∷ s) [] u e f = cc
str_leb_trans (a ∷ s) (b ∷ t) [] e f = cc
str_leb_trans (a ∷ s) (b ∷ t) (c ∷ u) e f = ground (arith, str_leb_trans s t u)

-- Two insertions commute, so the result of sorting does not depend on the order of the input.
place_comm : (a b : GoString) (ks : List GoString) → place a (place b ks) ≡ place b (place a ks)
unfolding place
place_comm a b [] = ground (arith, str_leb_total a b, str_leb_antisymm a b)
place_comm a b (k ∷ ks) = ground (
  arith,
  place_comm a b ks,
  str_leb_total a b,
  str_leb_antisymm a b,
  str_leb_trans a b k,
  str_leb_trans b a k,
  str_leb_total a k,
  str_leb_total b k,
  str_leb_trans a k b,
  str_leb_trans b k a,
)

unfoldable pub contains : GoString → List GoString → Bool
contains k [] = false
contains k (j ∷ ks) = str_eq j k || contains k ks

contains-place :
    (k j : GoString) (ks : List GoString) → contains k (place j ks) ≡ (str_eq j k || contains k ks)
unfolding contains place
contains-place k j [] = refl
contains-place k j (i ∷ ks) = ground (arith, contains-place k j ks)

pub contains-sort_strings :
    (k : GoString) (ks : List GoString) → contains k (sort_strings ks) ≡ contains k ks
unfolding sort_strings contains
contains-sort_strings k [] = refl
contains-sort_strings k (j ∷ ks) =
    contains-place k j (sort_strings ks) ∙ ap (λ b. str_eq j k || b) (contains-sort_strings k ks)

strings_set : IsSet (List GoString)
strings_set = hlevel

pub sort_strings_perm : {ks js : List GoString} → Perm ks js → sort_strings ks ≡ sort_strings js
unfolding sort_strings
sort_strings_perm p = Perm.foldr-eq strings_set place place_comm p []

module _ {κ} (P : GoString → Type κ) where
  All-place : (k : GoString) (ks : List GoString) → P k → All P ks → All P (place k ks)
  unfolding place
  All-place k [] h hs = (h, tt)
  All-place k (j ∷ ks) h hs = elim (Bool-cases (str_leb k j)) [
    | inl e ↦ rw e (h, hs)
    | inr e ↦ rw e (hs.0, All-place k ks h hs.1)
  ]

  pub All-sort_strings : (ks : List GoString) → All P ks → All P (sort_strings ks)
  unfolding sort_strings
  All-sort_strings [] hs = tt
  All-sort_strings (k ∷ ks) hs = All-place k (sort_strings ks) hs.0 (All-sort_strings ks hs.1)

length-place : (k : GoString) (ks : List GoString) → length (place k ks) ≡ suc (length ks)
unfolding place
length-place k [] = refl
length-place k (j ∷ ks) = ground (arith, length-place k ks)

pub length-sort_strings : (ks : List GoString) → length (sort_strings ks) ≡ length ks
unfolding sort_strings
length-sort_strings [] = refl
length-sort_strings (k ∷ ks) =
    omega (arith, length-place k (sort_strings ks), length-sort_strings ks)
