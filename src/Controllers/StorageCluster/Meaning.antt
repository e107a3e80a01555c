-- ===== src/Controllers/StorageCluster/Meaning.antt =====
-- What is meant by the storage cluster that the parameters ask for, said of its fields. For each of
-- the three deployment types this is the template but for what is named; the gateway is left open.
use ocs_osd_deployer.Base.{
  ℕ, ◌+◌, ◌*◌, ◌^◌, ◌≤◌, ◌<◌, String, ◌<>◌, ◌≡◌, ◌≢◌, ◌⊎◌, Bool, true, false, none, some, List, [],
  ◌∷◌, map,
}
use ocs_osd_deployer.Base.Dict.{Dict, lookup, get_text}
use ocs_osd_deployer.Base.Int.{ℤ, pos, negsuc, ◌≤ℤ◌}
use ocs_osd_deployer.Base.Text.{atoi, parse_bool}
use ocs_osd_deployer.Kube.Storage.{Quantity, StorageDeviceSet, StorageClusterSpec}
use ocs_osd_deployer.Kube.Env.{Env}
use ocs_osd_deployer.Templates.StorageClusters.{
  converged_storage_cluster_template, provider_storage_cluster_template,
  consumer_storage_cluster_template,
}

-- The third number is the larger of the first two.
abbrev pub IsLarger : ℤ → ℤ → ℤ → Type 0
IsLarger a b c = (a ≤ℤ c) × (b ≤ℤ c) × ((c ≡ a) ⊎ (c ≡ b))

-- The first of the sets that is named `default` has this count; without one the count is 0.
abbrev pub HasCount : List StorageDeviceSet → ℤ → Type 0
HasCount [] count = count ≡ pos 0
HasCount (set ∷ sets) count =
    ((set.name ≡ "default") × (count ≡ set.count)) ⊎ ((set.name ≢ "default") × HasCount sets count)

-- The smallest number of device sets of 4 TiB that holds the size, which is said of sizes below 2^53
-- alone; for a negative size the number is not positive.
abbrev pub Covers : ℤ → ℤ → Type 0
Covers (pos n) sets = (2 ^ 53 ≤ n) ⊎ ((c : ℕ) × (sets ≡ pos c) × (n ≤ 4 * c) × (4 * c < n + 4))
Covers (negsuc n) sets = sets ≤ℤ pos 0

abbrev pub counted_as : ℤ → StorageDeviceSet → StorageDeviceSet
counted_as count set = record set { count = count }

-- The template with this number of device sets, and with some setting of the gateway.
abbrev pub IsSized : StorageClusterSpec → ℤ → StorageClusterSpec → Type 0
IsSized template count out =
    HasCount out.storage_device_sets count
    × (out ≡ record template {
      storage_device_sets = map (counted_as count) template.storage_device_sets;
      multi_cloud_gateway = out.multi_cloud_gateway;
    })

-- `had` is the number of device sets that are there.
abbrev pub IsConverged : Dict String → ℤ → StorageClusterSpec → Type 0
IsConverged params had out =
    (size : ℤ) × (count : ℤ) × (atoi (get_text "size" params) ≡ some size)
    × IsLarger size had count
    × IsSized converged_storage_cluster_template count out

abbrev pub IsProvider : Dict String → ℤ → StorageClusterSpec → Type 0
IsProvider params had out =
    (size : ℤ) × (sets : ℤ) × (count : ℤ) × (atoi (get_text "size" params) ≡ some size)
    × Covers size sets
    × IsLarger sets had count
    × IsSized provider_storage_cluster_template count out

-- An external cluster of this capacity, with no device sets of its own.
abbrev pub IsExternal : Dict String → Quantity → StorageClusterSpec → Type 0
IsExternal params capacity out =
    (out.external_storage ≡ record {
      enable = true;
      storage_provider_kind = "ocs";
      storage_provider_endpoint = get_text "storage-provider-endpoint" params;
      onboarding_ticket = get_text "onboarding-ticket" params;
      requested_capacity = some capacity;
    })
    × (out.storage_device_sets ≡ [])
    × (out ≡ record consumer_storage_cluster_template {
      external_storage = out.external_storage;
      multi_cloud_gateway = out.multi_cloud_gateway;
    })

-- The parameter for the gateway: a missing one means that it is off.
abbrev pub AsksForGateway : Dict String → Bool → Type 0
AsksForGateway params enabled =
    ((lookup "enable-mcg" params ≡ none) × (enabled ≡ false))
    ⊎ ((text : String) × (lookup "enable-mcg" params ≡ some text)
        × (parse_bool text ≡ some enabled))

module _ (E : Env) where
  abbrev pub IsConsumer : Dict String → StorageClusterSpec → Type 0
  IsConsumer params out =
      (capacity : Quantity) × (E.parse_quantity (get_text "size" params <> get_text "unit" params)
        ≡ some capacity)
      × (E.is_negative capacity ≡ false)
      × IsExternal params capacity out

  -- What is meant for a deployment type; no other type is accepted.
  abbrev pub IsMeant : String → Dict String → ℤ → StorageClusterSpec → Type 0
  IsMeant deployment_type params had out =
      ((deployment_type ≡ "converged") × IsConverged params had out)
      ⊎ ((deployment_type ≡ "provider") × IsProvider params had out)
      ⊎ ((deployment_type ≡ "consumer") × IsConsumer params out)
