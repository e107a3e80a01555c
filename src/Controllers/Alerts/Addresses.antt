-- ===== src/Controllers/Alerts/Addresses.antt =====
-- `getAlertingAddresses`: the loop ends, and what it collects.
use ocs_osd_deployer.Base.{
  ℕ, zero, suc, ◌+◌, ◌≤◌, ◌<◌, String, ◌≡◌, ◌≢◌, refl, sym, ap, ◌∙◌, none, some, List, [], ◌∷◌,
  ◌++◌, str_eq, if◌then◌else◌, arith, Bool-cases, Option-cases, inl, inr,
}
use ocs_osd_deployer.Base.Lists.{length}
use ocs_osd_deployer.Base.Dict.{Dict, lookup, get_text, erase, lookup-erase, length-erase}
use ocs_osd_deployer.Base.Text.{decimal-injective}
use ocs_osd_deployer.Controllers.Alerts.{alerting_address_key, address_loop, alerting_addresses}
use mathlib.Core.List.{append-nil, append_assoc}
use text.Mathlib.TextLemmas.{append_cancel_left}

key-distinct : (i j : ℕ) → i < j → alerting_address_key i ≢ alerting_address_key j
unfolding alerting_address_key
key-distinct i j lt e =
    let same : i ≡ j = decimal-injective i j (append_cancel_left "notification-email-" _ _ e) in
    absurd (omega arith)

module _ (params : Dict String) where
  -- The keys for `n` numbers from `i` on are there.
  abbrev pub Given : (n i : ℕ) → Type 0
  Given zero i = Unit
  Given (suc n) i =
      ((v : String) × (lookup (alerting_address_key i) params ≡ some v)) × Given n (suc i)

  -- The texts for these numbers, in order, without the empty ones.
  abbrev pub texts : (n i : ℕ) → List String
  texts zero i = []
  texts (suc n) i =
      let rest = texts n (suc i) in
      let address = get_text (alerting_address_key i) params in
      if str_eq address "" then rest else address ∷ rest

  append-texts :
      (n i : ℕ) (address : String) (addresses : List String)
      → lookup (alerting_address_key i) params ≡ some address
      → (if str_eq address "" then addresses else addresses ++ (address ∷ [])) ++ texts n (suc i)
        ≡ addresses ++ texts (suc n) i
  unfolding get_text
  append-texts n i address addresses h = elim (Bool-cases (str_eq address "")) [
    | inl e ↦ rw (texts, get_text, h, e) refl
    | inr e ↦ rw (texts, get_text, h, e) (append_assoc addresses (address ∷ []) (texts n (suc i)))
  ]

  -- `d` are the entries that the rounds so far did not use.
  loop_ends :
      (fuel i : ℕ) (addresses : List String) (d : Dict String)
      → length d < fuel
      → ((j : ℕ)
          → i ≤ j
          → lookup (alerting_address_key j) d ≡ lookup (alerting_address_key j) params)
      → (n : ℕ) × Given n i
        × (lookup (alerting_address_key (i + n)) params ≡ none)
        × (address_loop fuel i params addresses ≡ some (addresses ++ texts n i))
  unfolding address_loop
  loop_ends zero i addresses d lt same = absurd (omega arith)
  loop_ends (suc fuel) i addresses d lt same =
      elim (Option-cases (lookup (alerting_address_key i) params)) [
        | inl e ↦ (
          0,
          tt,
          ap (λ m. lookup (alerting_address_key m) params) (omega arith) ∙ e,
          rw (e, address_loop) (ap some (sym (append-nil addresses))),
        )
        | inr (v, e) ↦
            let (n, given, absent, result) =
              loop_ends fuel (suc i) (if str_eq v "" then addresses else addresses ++ (v ∷ []))
                (erase (alerting_address_key i) d)
                (omega (
                  arith,
                  length-erase (alerting_address_key i) d {v = v} (same i (omega arith) ∙ e),
                ))
                (λ j le. lookup-erase _ _ d (key-distinct i j le) ∙ same j (omega arith)) in
            (
              suc n,
              ((v, e), given),
              ap (λ m. lookup (alerting_address_key m) params) (omega arith) ∙ absent,
              rw (e, address_loop) (result ∙ ap some (append-texts n i v addresses e)),
            )
      ]

  -- The loop ends: for some number `n`, the keys 0 to n - 1 are there and the key n is not, and the
  -- result are the texts of these keys, in order and without the empty ones.
  pub alerting_addresses-ends :
      (n : ℕ) × Given n 0
      × (lookup (alerting_address_key n) params ≡ none)
      × (alerting_addresses params ≡ some (texts n 0))
  unfolding alerting_addresses
  alerting_addresses-ends =
      let (n, given, absent, result) =
        loop_ends (suc (length params)) 0 [] params (omega arith) (λ j le. refl) in
      (n, given, ap (λ m. lookup (alerting_address_key m) params) (omega arith) ∙ absent, result)
