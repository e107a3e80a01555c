-- ===== src/AwsDataGather/Backoff.antt =====
-- The endless loop of `main`: what it sleeps, from the results of the attempts.
use ocs_osd_deployer.Base.{
  ℕ, zero, suc, ◌*◌, ◌≤◌, Bool, true, false, List, [], ◌∷◌, arith, ltb, if◌then◌else◌,
}
use ocs_osd_deployer.Base.Lists.{All}

abbrev pub max_sleep : ℕ
max_sleep = 300

-- One round: the seconds to sleep, and the backoff for the next round.
unfoldable pub next : Bool → ℕ → ℕ × ℕ
next true backoff = (max_sleep, 1)
next false backoff = (backoff, if ltb max_sleep (2 * backoff) then max_sleep else 2 * backoff)

-- The seconds slept, for a list of attempts.
unfoldable pub sleeps : List Bool → ℕ → List ℕ
sleeps [] backoff = []
sleeps (done ∷ rest) backoff =
    let (sleep, backoff') = next done backoff in sleep ∷ sleeps rest backoff'

-- The backoff after a list of attempts.
unfoldable pub backoff_after : List Bool → ℕ → ℕ
backoff_after [] backoff = backoff
backoff_after (done ∷ rest) backoff = backoff_after rest (next done backoff).1

abbrev pub failures : ℕ → List Bool
failures zero = []
failures (suc n) = false ∷ failures n

-- Every sleep lasts between one second and five minutes, whatever the attempts give.
pub sleeps_bounds :
    (attempts : List Bool) (backoff : ℕ)
    → 1 ≤ backoff
    → backoff ≤ max_sleep
    → All (λ s. (1 ≤ s) × (s ≤ max_sleep)) (sleeps attempts backoff)
unfolding sleeps next
sleeps_bounds [] backoff lo hi = tt
sleeps_bounds (true ∷ rest) backoff lo hi =
    ((omega arith, omega arith), sleeps_bounds rest 1 (omega arith) (omega arith))
sleeps_bounds (false ∷ rest) backoff lo hi =
    ((lo, hi), sleeps_bounds rest _ (ground arith) (ground arith))
