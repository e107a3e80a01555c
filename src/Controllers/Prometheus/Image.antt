-- ===== src/Controllers/Prometheus/Image.antt =====
-- The image that `reconcilePrometheus` takes for its sidecar.
use ocs_osd_deployer.Base.{
  String, ◌≡◌, ◌≢◌, ◌⊎◌, inl, inr, refl, ap, ◌∙◌, sym, none, some, List, [], ◌∷◌, ◌++◌, eq_iff,
  str_eq, Bool-cases, Option-cases, if◌then◌else◌, false,
}
use ocs_osd_deployer.Base.Lists.{All}
use ocs_osd_deployer.Kube.Workload.{Container, DeploymentSpec}
use ocs_osd_deployer.Controllers.Prometheus.{controller_deployment, last_image, kube_rbac_image}

-- The element is in the list and has the name, and none after it has.
abbrev pub IsLast : {A : Type 0} → (A → String) → String → List A → A → Type 0
IsLast {A} name_of name xs x =
    (before : List A) × (after : List A) × (xs ≡ before ++ (x ∷ after))
    × (name_of x ≡ name)
    × All (λ y. name_of y ≢ name) after

-- The image of the last container for the proxy, or none where there is no such container.
abbrev pub IsProxyImage : List Container → String → Type 0
IsProxyImage containers image =
    ((c : Container) × IsLast (λ c. c.name) "kube-rbac-proxy" containers c × (image ≡ c.image))
    ⊎ (All (λ c. c.name ≢ "kube-rbac-proxy") containers × (image ≡ ""))

-- That image in the last deployment of the manager.
abbrev pub IsManagerImage : List DeploymentSpec → String → Type 0
IsManagerImage deployments image =
    (d : DeploymentSpec) × IsLast (λ d. d.name) "ocs-osd-controller-manager" deployments d
    × IsProxyImage d.containers image

IsLast-cons :
    {A : Type 0} (name_of : A → String) (name : String) (y x : A) (xs : List A)
    → IsLast name_of name xs x
    → IsLast name_of name (y ∷ xs) x
IsLast-cons name_of name y x xs (before, after, e, is, others) =
    (y ∷ before, after, ap (λ l. y ∷ l) e, is, others)

not_named : (a b : String) → str_eq a b ≡ false → a ≢ b
not_named a b h e = let h' = (eq_iff a b).1 e in cc

controller_deployment-none :
    (ds : List DeploymentSpec)
    → controller_deployment ds ≡ none
    → All (λ d. d.name ≢ "ocs-osd-controller-manager") ds
unfolding controller_deployment
controller_deployment-none [] h = tt
controller_deployment-none (d ∷ ds) h = elim (Option-cases (controller_deployment ds)) [
  | inr (later, e) ↦ let h' = rw (controller_deployment, e) at h in absurd cc
  | inl e ↦ elim (Bool-cases (str_eq d.name "ocs-osd-controller-manager")) [
    | inl is ↦ let h' = rw (controller_deployment, e, is) at h in absurd cc
    | inr other ↦ (not_named _ _ other, controller_deployment-none ds e)
  ]
]

controller_deployment-IsLast :
    (ds : List DeploymentSpec) (d : DeploymentSpec)
    → controller_deployment ds ≡ some d
    → IsLast (λ d. d.name) "ocs-osd-controller-manager" ds d
unfolding controller_deployment
controller_deployment-IsLast [] d h = absurd cc
controller_deployment-IsLast (x ∷ ds) d h = elim (Option-cases (controller_deployment ds)) [
  | inr (later, e) ↦
      IsLast-cons (λ d. d.name) _ x d ds
        (controller_deployment-IsLast ds d (e ∙ (rw (controller_deployment, e) at h)))
  | inl e ↦ elim (Bool-cases (str_eq x.name "ocs-osd-controller-manager")) [
    | inl is ↦
        let same =
          ap (λ o. elim o [ some y ↦ y | none ↦ x ]) (rw (controller_deployment, e, is) at h) in
        (
          [],
          ds,
          ap (λ y. y ∷ ds) same,
          ap (λ (y : DeploymentSpec). y.name) (sym same) ∙ (eq_iff x.name _).0 is,
          controller_deployment-none ds e,
        )
    | inr other ↦ let h' = rw (controller_deployment, e, other) at h in absurd cc
  ]
]

last_image-cases :
    (image : String) (cs : List Container)
    → ((c : Container) × IsLast (λ c. c.name) "kube-rbac-proxy" cs c
        × (last_image image cs ≡ c.image))
      ⊎ (All (λ c. c.name ≢ "kube-rbac-proxy") cs × (last_image image cs ≡ image))
last_image-cases image [] = inr (tt, refl)
last_image-cases image (x ∷ cs) =
    elim (last_image-cases (if str_eq x.name "kube-rbac-proxy" then x.image else image) cs) [
      | inl (c, last, e) ↦ inl (c, IsLast-cons (λ c. c.name) _ x c cs last, e)
      | inr (others, e) ↦ elim (Bool-cases (str_eq x.name "kube-rbac-proxy")) [
        | inl is ↦ inl (x, ([], cs, refl, (eq_iff x.name _).0 is, others), e ∙ (rw is refl))
        | inr other ↦ inr ((not_named _ _ other, others), e ∙ (rw other refl))
      ]
    ]

pub kube_rbac_image-IsManagerImage :
    (deployments : List DeploymentSpec) (image : String)
    → kube_rbac_image deployments ≡ some image
    → IsManagerImage deployments image
unfolding kube_rbac_image
kube_rbac_image-IsManagerImage ds image h = elim (Option-cases (controller_deployment ds)) [
  | inl e ↦ let h' = rw (kube_rbac_image, e) at h in absurd cc
  | inr (d, e) ↦
      let same = ap (λ o. elim o [ some y ↦ y | none ↦ image ]) (rw (kube_rbac_image, e) at h) in
      (
        d,
        controller_deployment-IsLast ds d e,
        elim (last_image-cases "" d.containers) [
          | inl (c, last, f) ↦ inl (c, last, sym same ∙ f)
          | inr (others, f) ↦ inr (others, sym same ∙ f)
        ],
      )
]
