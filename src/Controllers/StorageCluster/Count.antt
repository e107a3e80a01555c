-- ===== src/Controllers/StorageCluster/Count.antt =====
-- The number of device sets: `setDeviceSetCount`, and the count for a provider,
-- `int(math.Ceil(float64(desiredSize) / templates.ProviderOSDSizeInTiB))`.
use ocs_osd_deployer.Base.{ℕ, zero, suc, ◌+◌, ◌-◌, ◌*◌, ◌/◌, ◌%◌, ◌^◌, ltb, ◌==◌, if◌then◌else◌}
use ocs_osd_deployer.Base.Int.{ℤ, pos, negsuc, leb_ℤ, neg_ℕ}
use ocs_osd_deployer.Templates.StorageClusters.{provider_osd_size_in_tib}

-- `setDeviceSetCount`
unfoldable pub device_set_count : (desired current : ℤ) → ℤ
device_set_count desired current = if leb_ℤ current desired then desired else current

-- The distance of neighbouring float64 values at a magnitude below 2^63: from 2^53 on it doubles at
-- each power of 2. `rounds` are the doublings that are left.
unfoldable pub spacing : (rounds unit n : ℕ) → ℕ
spacing zero unit n = unit
spacing (suc rounds) unit n =
    let wider = spacing rounds (2 * unit) n in if ltb n (2 ^ 53 * unit) then unit else wider

-- The nearest multiple of the unit, of two equally near ones the even multiple.
unfoldable pub round_to : (unit n : ℕ) → ℕ
round_to unit n =
    let q = n / unit in
    let r = n % unit in
    if ltb (2 * r) unit
    then q * unit
    else if ltb unit (2 * r)
    then (q + 1) * unit
    else (if q % 2 == 0 then q * unit else (q + 1) * unit)

-- `float64` of a magnitude below 2^64, as a whole number.
unfoldable pub to_float64 : ℕ → ℕ
to_float64 n = round_to (spacing 11 1 n) n

-- A quarter of a float64 is exact; `math.Ceil` rounds it up, so a negative one towards zero.
unfoldable pub provider_device_set_count : ℤ → ℤ
provider_device_set_count (pos n) =
    pos ((to_float64 n + (provider_osd_size_in_tib - 1)) / provider_osd_size_in_tib)
provider_device_set_count (negsuc n) = neg_ℕ (to_float64 (suc n) / provider_osd_size_in_tib)
