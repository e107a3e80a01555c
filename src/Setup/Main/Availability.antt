-- ===== src/Setup/Main/Availability.antt =====
-- What `mapCRDAvailability` gives for the two definitions that `main` asks for.
use mathlib.Core.Option
use ocs_osd_deployer.Base.{
  String, List, Bool, true, false, not, ◌≡◌, ◌↔◌, refl, ap, sym, ◌∙◌, Option, none, some, [], ◌∷◌,
  str_eq, Option-cases, Bool-cases, inl, inr,
}
use ocs_osd_deployer.Base.Dict.{Dict, insert}
use ocs_osd_deployer.Kube.Exec.{Result}
use ocs_osd_deployer.Kube.Env.{Env}
use ocs_osd_deployer.Controllers.State.{egress_firewall_crd, egress_network_policy_crd}
use ocs_osd_deployer.Setup.Main.{Platform, crd_names, uid_found, map_crds, map_crd_availability}

-- The read succeeds, or finds no such definition.
abbrev pub is_answered : Option String → Bool
is_answered none = false
is_answered (some uid) = true

-- The definition is there: it was found with a UID.
abbrev pub is_there : Option String → Bool
is_there none = false
is_there (some uid) = not (str_eq uid "")

-- The map that is meant, for the answers of the API server.
abbrev pub availability : (String → Result String) → Dict Bool
availability answers =
    (egress_firewall_crd, is_there (uid_found (answers egress_firewall_crd)))
    ∷ (egress_network_policy_crd, is_there (uid_found (answers egress_network_policy_crd)))
    ∷ []

-- Both reads succeed, or find no such definition.
abbrev pub IsAnswered : (String → Result String) → Type 0
IsAnswered answers =
    (is_answered (uid_found (answers egress_firewall_crd)) ≡ true)
    × (is_answered (uid_found (answers egress_network_policy_crd)) ≡ true)

answered-uid : (o : Option String) → is_answered o ≡ true → (uid : String) × (o ≡ some uid)
answered-uid none h = absurd cc
answered-uid (some uid) h = (uid, refl)

module _ (E : Env) (p : Platform E) (answers : String → Result String)
    (steady : (name : String) (c : E.Cluster) → (p.get_crd name c).0 ≡ answers name) where
  map_crds-step :
      (name : String) (names : List String) (exist : Dict Bool) (c : E.Cluster) (uid : String)
      → uid_found (answers name) ≡ some uid
      → map_crds E p (name ∷ names) exist c
        ≡ map_crds E p names (insert name (not (str_eq uid "")) exist) (p.get_crd name c).1
  unfolding map_crds
  map_crds-step name names exist c uid h = rw (map_crds, steady name c, h) refl

  map_crds-stop :
      (name : String) (names : List String) (exist : Dict Bool) (c : E.Cluster)
      → uid_found (answers name) ≡ none
      → (map_crds E p (name ∷ names) exist c).0 ≡ none
  unfolding map_crds
  map_crds-stop name names exist c h = rw (map_crds, steady name c, h) refl

  map_crds-both :
      (c : E.Cluster) (first second : String)
      → uid_found (answers egress_firewall_crd) ≡ some first
      → uid_found (answers egress_network_policy_crd) ≡ some second
      → map_crds E p crd_names [] c ≡ (
        some (availability answers),
        (p.get_crd egress_network_policy_crd (p.get_crd egress_firewall_crd c).1).1,
      )
  unfolding map_crds insert
  map_crds-both c first second h k =
      rw
        (
          map_crds-step egress_firewall_crd (egress_network_policy_crd ∷ []) [] c first h,
          map_crds-step egress_network_policy_crd [] _ _ second k,
          h,
          k,
        )
        refl

  map_crds-stops :
      (c : E.Cluster) (first : String)
      → uid_found (answers egress_firewall_crd) ≡ some first
      → uid_found (answers egress_network_policy_crd) ≡ none
      → (map_crds E p crd_names [] c).0 ≡ none
  map_crds-stops c first h k =
      rw (map_crds-step egress_firewall_crd (egress_network_policy_crd ∷ []) [] c first h)
        (map_crds-stop egress_network_policy_crd [] _ _ k)

  map_crds-some :
      (c : E.Cluster) (out : Dict Bool)
      → (map_crds E p crd_names [] c).0 ≡ some out
      → IsAnswered answers × (out ≡ availability answers)
  map_crds-some c out h = elim (Option-cases (uid_found (answers egress_firewall_crd))) [
    | inl e ↦ absurd (Option.none-ne-some out (sym (map_crds-stop _ _ [] c e) ∙ h))
    | inr (first, e) ↦ elim (Option-cases (uid_found (answers egress_network_policy_crd))) [
      | inl f ↦ absurd (Option.none-ne-some out (sym (map_crds-stops c first e f) ∙ h))
      | inr (second, f) ↦
          let both = ap (λ x. x.0) (map_crds-both c first second e f) in
          ((rw e refl, rw f refl), cc)
    ]
  ]

  -- The map is made exactly if a client can be made and both reads are answered, and says of each
  -- definition whether it is there.
  pub map_crd_availability_iff :
      (c : E.Cluster) (out : Dict Bool)
      → ((map_crd_availability E p crd_names c).0 ≡ some out)
        ↔ ((p.has_crd_client ≡ true) × IsAnswered answers × (out ≡ availability answers))
  unfolding map_crd_availability
  map_crd_availability_iff c out = (
    (λ h. elim (Bool-cases p.has_crd_client) [
      | inl has ↦
          let (answered, e) = map_crds-some c out (rw (map_crd_availability, has) at h) in
          (has, answered, e)
      | inr lacks ↦ let h' = rw (map_crd_availability, lacks) at h in absurd cc
    ]),
    (λ (has, (one, two), e).
        let (first, f) = answered-uid _ one in
        let (second, g) = answered-uid _ two in
        rw (map_crd_availability, has, e) (ap (λ x. x.0) (map_crds-both c first second f g))),
  )

  -- The cluster after both reads.
  pub map_crd_availability-cluster :
      (c : E.Cluster)
      → p.has_crd_client ≡ true
      → IsAnswered answers
      → (map_crd_availability E p crd_names c).1
        ≡ (p.get_crd egress_network_policy_crd (p.get_crd egress_firewall_crd c).1).1
  unfolding map_crd_availability
  map_crd_availability-cluster c has (one, two) =
      let (first, f) = answered-uid _ one in
      let (second, g) = answered-uid _ two in
      rw (map_crd_availability, has) (ap (λ x. x.1) (map_crds-both c first second f g))
