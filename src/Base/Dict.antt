-- ===== src/Base/Dict.antt =====
-- A Go `map[string]V` as an association list; its order is never observed by the program except
-- where a comment says so. A nil map is the empty one unless the code tells them apart.
use Prim.Native.String.{String}
use mathlib.Core.Path.{◌≡◌, refl}
use mathlib.Core.Option.{Option, none, some}
use mathlib.Core.List.{List, [], ◌∷◌}
use native.Mathlib.Omega.{arith}
use text.Mathlib.Text.{◌==◌ as str_eq}
use text.Mathlib.TextEquality.{eq_iff}
use Prim.Native.Nat.{◌≤◌, ◌<◌}
use mathlib.Core.Logic.{◌≢◌}
use ocs_osd_deployer.Base.Lists.{length}
use ocs_osd_deployer.Base.Tests.{if◌then◌else◌}

abbrev pub Dict {ℓ} : Type ℓ → Type ℓ
Dict V = List (String × V)

module _ {ℓ} {V : Type ℓ} where
  -- `v, ok := d[k]`
  unfoldable pub lookup : String → Dict V → Option V
  lookup k [] = none
  lookup k ((j, v) ∷ d) = if str_eq j k then some v else lookup k d

  -- `d[k] = v`
  unfoldable pub insert : String → V → Dict V → Dict V
  insert k v [] = (k, v) ∷ []
  insert k v ((j, w) ∷ d) = if str_eq j k then (k, v) ∷ d else (j, w) ∷ insert k v d

  pub lookup-insert :
      (k j : String) (v : V) (d : Dict V)
      → lookup j (insert k v d) ≡ (if str_eq k j then some v else lookup j d)
  unfolding lookup insert
  lookup-insert k j v [] = refl
  lookup-insert k j v ((i, w) ∷ d) =
      ground (arith, eq_iff k j, eq_iff i k, eq_iff i j, lookup-insert k j v d)

  -- `delete(d, k)`
  unfoldable pub erase : String → Dict V → Dict V
  erase k [] = []
  erase k ((j, v) ∷ d) = if str_eq j k then erase k d else (j, v) ∷ erase k d

  pub lookup-erase : (k j : String) (d : Dict V) → k ≢ j → lookup j (erase k d) ≡ lookup j d
  unfolding lookup erase
  lookup-erase k j [] ne = refl
  lookup-erase k j ((i, v) ∷ d) ne = ground (arith, eq_iff i k, eq_iff i j, lookup-erase k j d)

  length-erase_le : (k : String) (d : Dict V) → length (erase k d) ≤ length d
  unfolding erase
  length-erase_le k [] = omega arith
  length-erase_le k ((i, v) ∷ d) = ground (arith, length-erase_le k d)

  -- A key that is there makes the map shorter.
  pub length-erase :
      (k : String) (d : Dict V) {v : V} → lookup k d ≡ some v → length (erase k d) < length d
  unfolding lookup erase
  length-erase k [] {v} h = ground arith
  length-erase k ((i, w) ∷ d) {v} h = ground (arith, length-erase_le k d, length-erase k d {v = v})

-- `d[k]` for a map of texts: the empty text where the key is missing.
unfoldable pub get_text : String → Dict String → String
get_text k d = elim (lookup k d) [ some v ↦ v | none ↦ "" ]

pub get_text-insert : (k v : String) (d : Dict String) → get_text k (insert k v d) ≡ v
unfolding get_text
get_text-insert k v d = ground (arith, lookup-insert k k v d, eq_iff k k)
