-- ===== src/Utils/PodName.antt =====
-- DeploymentNameFromPodName of utils/utils.go.
use Prim.Native.Char.{Char, code}
use text.Mathlib.TextLemmas.{cons-append, nil-append}
use ocs_osd_deployer.Base.{
  ℕ, suc, String, ◌<>◌, ◌≡◌, refl, ap, ◌∙◌, false, Option, none, some, arith, ◌==◌, Bool-cases, inl,
  inr,
}
use ocs_osd_deployer.Base.Text.{last_index, slice_to, has_char}

-- The name up to its last hyphen.
unfoldable pub cut_last_section : String → Option String
cut_last_section name = elim (last_index name b'-') [
  | none ↦ none
  | some i ↦ some (slice_to name i)
]

-- `none` is the error "invalid pod name".
unfoldable pub deployment_name : String → Option String
deployment_name pod_name = elim (cut_last_section pod_name) [
  | none ↦ none
  | some name ↦ cut_last_section name
]

module _ (c : ℕ) where
  last_index_absent : (s : String) → has_char c s ≡ false → last_index s c ≡ none
  unfolding last_index has_char
  last_index_absent String.[] h = refl
  last_index_absent (String.◌∷◌ x s) h = elim (Bool-cases (code x == c)) [
    | inl e ↦ ground (arith, last_index_absent s)
    | inr e ↦ ground (arith, last_index_absent s)
  ]

  last_index-none : (s : String) → last_index s c ≡ none → has_char c s ≡ false
  unfolding last_index has_char
  last_index-none String.[] h = refl
  last_index-none (String.◌∷◌ x s) h = ground (arith, last_index-none s)

  -- The text before the last `c`, where what follows holds no `c`.
  cut-append :
      (d : String) (x : Char) (u : String)
      → code x ≡ c
      → has_char c u ≡ false
      → (i : ℕ) × (last_index (d <> String.◌∷◌ x u) c ≡ some i)
        × (slice_to (d <> String.◌∷◌ x u) i ≡ d)
  unfolding last_index slice_to
  cut-append String.[] x u e h =
      (0, rw nil-append (rw (last_index_absent u h) (ground arith)), rw nil-append refl)
  cut-append (String.◌∷◌ y d) x u e h =
      let (i, li, si) = cut-append d x u e h in
      (suc i, rw cons-append (rw (li, last_index)), rw cons-append (ap (String.◌∷◌ y) si))

abbrev hyphen : Char
hyphen = "-"

hyphen-append : (u : String) → "-" <> u ≡ String.◌∷◌ hyphen u
hyphen-append u = cons-append hyphen "" u ∙ ap (String.◌∷◌ hyphen) (nil-append u)

cut_last_section-cons :
    (d u : String) → has_char b'-' u ≡ false → cut_last_section (d <> String.◌∷◌ hyphen u) ≡ some d
unfolding cut_last_section
cut_last_section-cons d u h =
    let (i, li, si) = cut-append b'-' d hyphen u refl h in rw (li, cut_last_section) (ap some si)

-- A text that ends in a hyphen and a section without one is cut there.
cut_last_section-append :
    (d u : String) → has_char b'-' u ≡ false → cut_last_section (d <> ("-" <> u)) ≡ some d
cut_last_section-append d u h = rw hyphen-append (cut_last_section-cons d u h)

-- The deployment name is recovered from a pod name <deployment>-<hash>-<uid> whose last two
-- sections hold no hyphen.
pub deployment_name-pod_name :
    (d h u : String)
    → has_char b'-' h ≡ false
    → has_char b'-' u ≡ false
    → deployment_name ((d <> ("-" <> h)) <> ("-" <> u)) ≡ some d
unfolding deployment_name
deployment_name-pod_name d h u hh hu =
    rw (cut_last_section-append (d <> ("-" <> h)) u hu, deployment_name)
      (cut_last_section-append d h hh)

-- Only a text without a hyphen is not cut.
cut_last_section-none : (s : String) → cut_last_section s ≡ none → has_char b'-' s ≡ false
unfolding cut_last_section
cut_last_section-none s e = last_index-none b'-' s (ground arith)
