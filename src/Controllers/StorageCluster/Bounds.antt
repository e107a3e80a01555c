-- ===== src/Controllers/StorageCluster/Bounds.antt =====
-- Bounds of the number of device sets.
use ocs_osd_deployer.Base.{ℕ, suc, ◌+◌, ◌*◌, ◌/◌, ◌^◌, ◌≤◌, ◌<◌, ◌≡◌, ◌⊎◌, arith}
use ocs_osd_deployer.Base.Int.{ℤ, pos, ◌≤ℤ◌}
use ocs_osd_deployer.Controllers.StorageCluster.Count.{
  device_set_count, spacing, round_to, to_float64, provider_device_set_count,
}

-- The count is the larger of the two: it is never lower than the current one, it is never lower
-- than the desired one, and it is one of them.
pub device_set_count_max :
    (desired current : ℤ)
    → (current ≤ℤ device_set_count desired current)
      × (desired ≤ℤ device_set_count desired current)
      × ((device_set_count desired current ≡ desired)
          ⊎ (device_set_count desired current ≡ current))
unfolding device_set_count
device_set_count_max desired current = ground arith

spacing_one : (rounds n : ℕ) → n < 2 ^ 53 → spacing (suc rounds) 1 n ≡ 1
unfolding spacing
spacing_one rounds n h = ground arith

round_to_one : (n : ℕ) → round_to 1 n ≡ n
unfolding round_to
round_to_one n = ground arith

-- A whole number below 2^53 is a float64.
to_float64_exact : (n : ℕ) → n < 2 ^ 53 → to_float64 n ≡ n
unfolding to_float64
to_float64_exact n h = rw (spacing_one 10 n h) (round_to_one n)

-- A provider gets the smallest number of device sets of 4 TiB that holds the requested size, for
-- sizes below 2^53.
pub provider_device_set_count_covers :
    (n : ℕ)
    → n < 2 ^ 53
    → (c : ℕ) × (provider_device_set_count (pos n) ≡ pos c) × (n ≤ 4 * c) × (4 * c < n + 4)
unfolding provider_device_set_count
provider_device_set_count_covers n h =
    let e = to_float64_exact n h in
    ((n + 3) / 4, rw (e, provider_device_set_count), omega arith, omega arith)
