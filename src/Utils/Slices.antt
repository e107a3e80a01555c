-- ===== src/Utils/Slices.antt =====
-- Contains, Remove and MapItems of utils/utils.go.
use mathlib.Core.List.Memᴰ
use mathlib.Core.List.{Memᴰ}
use ocs_osd_deployer.Base.{
  String, ◌≡◌, refl, Bool, true, false, List, [], ◌∷◌, str_eq, eq_iff, sym, Bool-cases, inl, inr,
  if◌then◌else◌, arith, map,
}

unfoldable pub contains : List String → String → Bool
contains [] s = false
contains (item ∷ slice) s = if str_eq item s then true else contains slice s

unfoldable pub remove : List String → String → List String
remove [] s = []
remove (item ∷ slice) s = let rest = remove slice s in if str_eq item s then rest else item ∷ rest

-- The loop over the indices fills one place of the target for each place of the source.
unfoldable pub map_items : List String → (String → String) → List String
map_items source transform = map transform source

-- Removing `s` leaves no `s` behind and keeps every other item.
pub contains-remove :
    (slice : List String) (s t : String)
    → contains (remove slice s) t ≡ (if str_eq s t then false else contains slice t)
unfolding contains remove
contains-remove [] s t = ground arith
contains-remove (item ∷ slice) s t =
    ground (arith, contains-remove slice s t, eq_iff item s, eq_iff item t, eq_iff s t)

-- Without an `s` there is nothing to remove.
pub remove_absent :
    (slice : List String) (s : String) → contains slice s ≡ false → remove slice s ≡ slice
unfolding contains remove
remove_absent [] s h = refl
remove_absent (item ∷ slice) s h = ground (arith, remove_absent slice s)

-- A second removal changes nothing.
pub remove_idem : (slice : List String) (s : String) → remove (remove slice s) s ≡ remove slice s
remove_idem slice s =
    remove_absent (remove slice s) s (ground (arith, contains-remove slice s s, eq_iff s s))

pub contains-mem : (slice : List String) (s : String) → contains slice s ≡ true → Memᴰ s slice
unfolding contains
contains-mem [] s h = ground arith
contains-mem (item ∷ slice) s h = elim (Bool-cases (str_eq item s)) [
  | inl e ↦ Memᴰ.head (sym ((eq_iff item s).0 e))
  | inr e ↦ Memᴰ.tail (contains-mem slice s (ground arith))
]

pub mem-contains : (slice : List String) (s : String) → Memᴰ s slice → contains slice s ≡ true
unfolding contains
mem-contains [] s m = absurd (Memᴰ.not-nil m)
mem-contains (item ∷ slice) s m = elim (Memᴰ.cases_cons m) [
  | inl e ↦ ground (arith, eq_iff item s)
  | inr rest ↦ ground (arith, mem-contains slice s rest)
]
