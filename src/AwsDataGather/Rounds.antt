-- ===== src/AwsDataGather/Rounds.antt =====
-- The loop of `main` as a whole: when it has saved the data.
use ocs_osd_deployer.Base.{
  ℕ, zero, suc, ◌+◌, ◌≤◌, ◌<◌, ◌≡◌, true, arith, inl, inr, Option, none, some, refl, le_or_lt,
}
use ocs_osd_deployer.Kube.Object.{ObjectMeta}
use ocs_osd_deployer.Kube.Env.{Env}
use ocs_osd_deployer.Utils.Imds.{Http, imds_server}
use ocs_osd_deployer.AwsDataGather.Backoff.{max_sleep, next}
use ocs_osd_deployer.AwsDataGather.Gather.{
  Client, Outside, Gatherer, succeeds, round, rounds, SavesMutated, GatherError, is_nil,
  gather_and_save_data,
}
use ocs_osd_deployer.AwsDataGather.Stored.{IsSaved, gather_and_save_data-IsSaved}

nil-none : (e : Option GatherError) → is_nil e ≡ true → e ≡ none
nil-none none h = refl
nil-none (some e) h = cc

module _ (E : Env) (client : Client E) (http : Http) (deployment : ObjectMeta)
    (lasts : Outside E client http → ℕ)
    (wait : ℕ → Outside E client http → Outside E client http) where
  -- The backoff of `main`: from one second to five minutes.
  abbrev pub HasBackoff : Gatherer E client http → Type 0
  HasBackoff s = (1 ≤ s.backoff) × (s.backoff ≤ max_sleep)

  abbrev go : Gatherer E client http → Gatherer E client http
  go s = round E client http deployment lasts wait s

  abbrev after : ℕ → Gatherer E client http → Gatherer E client http
  after n s = rounds E client http deployment lasts wait n s

  round-HasBackoff :
      (s : Gatherer E client http)
      → HasBackoff s
      → HasBackoff (go s)
        × (s.elapsed < (go s).elapsed)
        × ((go s).elapsed ≤ s.elapsed + (lasts s.outside + max_sleep))
  unfolding round next
  round-HasBackoff s (lo, hi) = ground arith

  -- Some round starts soon after a given time, if no attempt lasts longer than `limit`; `d` bounds
  -- the seconds until then.
  round_in-window :
      (d time limit : ℕ) (s : Gatherer E client http)
      → HasBackoff s
      → ((n : ℕ) → lasts (after n s).outside ≤ limit)
      → time ≤ s.elapsed + d
      → s.elapsed < time + (limit + max_sleep)
      → (n : ℕ) × (time ≤ (after n s).elapsed) × ((after n s).elapsed < time + (limit + max_sleep))
  unfolding rounds
  round_in-window zero time limit s b short lo hi = (0, omega arith, hi)
  round_in-window (suc d) time limit s b short lo hi = elim (le_or_lt time s.elapsed) [
    | inl reached ↦ (0, reached, hi)
    | inr before ↦
        let (b', more, most) = round-HasBackoff s b in
        let brief : lasts s.outside ≤ limit = short 0 in
        let (n, from, until) =
          round_in-window d time limit (go s) b' (λ n. short (suc n)) (omega arith) (omega arith) in
        (suc n, from, until)
  ]

  succeeds-none :
      (s : Gatherer E client http)
      → succeeds E client http deployment lasts wait s ≡ true
      → (gather_and_save_data E client http imds_server deployment s.outside).0 ≡ none
  unfolding succeeds
  succeeds-none s h = nil-none _ h

  -- If the client saves what it is asked to, the backoff is from one second to five minutes, no
  -- attempt lasts longer than `limit` seconds, and from some time on, which has not passed yet, an
  -- attempt always succeeds when it is made, then some attempt starts less than `limit` seconds and
  -- five minutes after that time, and with it the config map holds the text that was fetched.
  pub rounds-saves :
      SavesMutated E client
      → (s : Gatherer E client http) (time limit : ℕ) → HasBackoff s
      → s.elapsed ≤ time
      → ((n : ℕ) → lasts (rounds E client http deployment lasts wait n s).outside ≤ limit)
      → ((n : ℕ)
          → time ≤ (rounds E client http deployment lasts wait n s).elapsed
          → succeeds E client http deployment lasts wait
              (rounds E client http deployment lasts wait n s)
            ≡ true)
      → (n : ℕ) × (time ≤ (rounds E client http deployment lasts wait n s).elapsed)
        × ((rounds E client http deployment lasts wait n s).elapsed < time + (limit + max_sleep))
        × IsSaved E client http imds_server deployment
            (rounds E client http deployment lasts wait n s).outside
  rounds-saves law s time limit b start short recovers =
      let (n, from, until) =
        round_in-window time time limit s b short (omega arith) (omega arith) in
      (
        n,
        from,
        until,
        gather_and_save_data-IsSaved E client http law imds_server deployment _
            (succeeds-none _ (recovers n from)),
      )
