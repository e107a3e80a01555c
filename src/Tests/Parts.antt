-- ===== src/Tests/Parts.antt =====
-- The helpers, the environment and the loop of the gatherer.
use ocs_osd_deployer.Base.{
  ℕ, suc, ◌≤◌, String, ◌<>◌, ◌≡◌, refl, true, false, Option, none, some, [], ◌∷◌, ltb,
  if◌then◌else◌, arith,
}
use ocs_osd_deployer.Base.Lists.{All}
use ocs_osd_deployer.Base.Dict.{Dict, lookup}
use ocs_osd_deployer.Base.Text.{split, replace, has_char}
use ocs_osd_deployer.Utils.Slices.{contains}
use ocs_osd_deployer.Utils.Retry.{
  succeeded, failed_after, retry, after, last_error, retry_succeeds, retry_fails,
}
use ocs_osd_deployer.Utils.PodName.{deployment_name, deployment_name-pod_name}
use ocs_osd_deployer.Utils.Imds.{split-replace}
use ocs_osd_deployer.Setup.{env_var_names, read_env_vars}
use ocs_osd_deployer.Setup.Variables.{read_env_vars-lookup}
use ocs_osd_deployer.AwsDataGather.Backoff.{max_sleep, sleeps, sleeps_bounds}

-- A call that fails until it was made twice.
abbrev third_time : ℕ → Option String × ℕ
third_time n = (if ltb n 2 then some "refused" else none, suc n)

retry_succeeds_example : retry third_time 5 0 ≡ (succeeded, after third_time 3 0)
retry_succeeds_example =
    retry_succeeds third_time 5 2 0 (omega arith) (("refused", refl), (("refused", refl), tt)) refl

retry_fails_example :
    retry third_time 2 0 ≡ (failed_after 2 (last_error third_time 2 none 0), after third_time 2 0)
retry_fails_example = retry_fails third_time 2 0 (("refused", refl), (("refused", refl), tt))

no_hyphen : (has_char b'-' "7d4b9c" ≡ false) × (has_char b'-' "x2v8q" ≡ false)
unfolding has_char
no_hyphen = (refl, refl)

deployment_name-pod_name_example :
    deployment_name (("aws-data-gather" <> ("-" <> "7d4b9c")) <> ("-" <> "x2v8q"))
    ≡ some "aws-data-gather"
deployment_name-pod_name_example =
    deployment_name-pod_name "aws-data-gather" "7d4b9c" "x2v8q" no_hyphen.0 no_hyphen.1

no_separator : has_char b';' "10.0.0.0/16\n10.1.0.0/16" ≡ false
unfolding has_char
no_separator = refl

split-replace_example :
    split b';' (replace b'\n' ";" "10.0.0.0/16\n10.1.0.0/16")
    ≡ split b'\n' "10.0.0.0/16\n10.1.0.0/16"
split-replace_example = split-replace b'\n' ";" "10.0.0.0/16\n10.1.0.0/16" no_separator

abbrev environment : String → Option String
environment name = some (name <> "-value")

abbrev or_empty : Option (Dict String) → Dict String
or_empty none = []
or_empty (some vars) = vars

variables_read : read_env_vars environment ≡ some (or_empty (read_env_vars environment))
unfolding read_env_vars
variables_read = refl

read_env_vars-lookup_example :
    lookup "NAMESPACE" (or_empty (read_env_vars environment))
    ≡ (if contains env_var_names "NAMESPACE" then environment "NAMESPACE" else none)
read_env_vars-lookup_example =
    read_env_vars-lookup environment {vars = or_empty (read_env_vars environment)} variables_read
      "NAMESPACE"

sleeps_bounds_example : All (λ s. (1 ≤ s) × (s ≤ max_sleep)) (sleeps (false ∷ false ∷ true ∷ []) 1)
sleeps_bounds_example = sleeps_bounds (false ∷ false ∷ true ∷ []) 1 (omega arith) (omega arith)
