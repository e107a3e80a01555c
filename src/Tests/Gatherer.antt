-- ===== src/Tests/Gatherer.antt =====
-- The gatherer of AWS data with a network that answers and a store of one config map.
use ocs_osd_deployer.Base.{
  ℕ, suc, ◌+◌, ◌≤◌, ◌<◌, String, ◌<>◌, ◌≡◌, refl, true, false, none, inr, [], str_eq, if◌then◌else◌,
  arith,
}
use ocs_osd_deployer.Base.Text.{split, has_char}
use ocs_osd_deployer.Api.{ready, reconcile_strategy_strict}
use ocs_osd_deployer.Kube.Exec
use ocs_osd_deployer.Kube.Exec.{Result, ok, err}
use ocs_osd_deployer.Kube.Object.{Kind, Object, ObjectMeta, new_meta}
use ocs_osd_deployer.Kube.Env.{Env}
use ocs_osd_deployer.Utils.Imds.{
  Http, Response, body, imds_server, imds_fetch_ipv4_cidr, fetch_cidrs, http_get_and_parse_body,
}
use ocs_osd_deployer.Controllers.State.{World}
use ocs_osd_deployer.Controllers.Egress.{vpc_egress_rules, read_vpc_rules}
use ocs_osd_deployer.AwsDataGather.Backoff.{max_sleep}
use ocs_osd_deployer.AwsDataGather.Gather.{
  Client, Outside, Gatherer, gather_and_save_data, save_data, saved, succeeds, rounds,
}
use ocs_osd_deployer.AwsDataGather.Stored.{IsSaved, gather_and_save_data-read_vpc_rules}
use ocs_osd_deployer.AwsDataGather.Rounds.{rounds-saves}
use ocs_osd_deployer.Tests.Scene.{namespace, env, reconciler}

abbrev stored : (k : Kind) → Object Kind.config_map → Result (Object k)
stored Kind.config_map obj = ok obj
stored k obj = err Exec.not_found

abbrev site : Env
site = record {
  Cluster = Object Kind.config_map;
  get = λ k name ns c. (stored k c, c);
  list = λ k ns limit c. (ok [], c);
  create = λ k obj c. (ok obj, c);
  update = λ k obj c. (ok obj, c);
  update_status = λ k obj c. (ok obj, c);
  delete = λ k obj c. (ok tt, c);
  set_controller_reference = env.set_controller_reference;
  same_object = env.same_object;
  same_requirements = env.same_requirements;
  parse_quantity = env.parse_quantity;
  is_negative = env.is_negative;
  hostname = env.hostname;
  read_file = env.read_file;
  yaml_relabel_configs = env.yaml_relabel_configs;
  yaml_requirements = env.yaml_requirements;
  json_texts = env.json_texts;
}

abbrev client : Client site
client = record {
  get_deployment = λ name ns c. (inr (new_meta name ns), c);
  create_or_update = λ obj mutate c. (none, mutate obj);
}

abbrev networks : String
networks = "10.0.0.0/16\n10.1.0.0/16"

abbrev answer_of : String → Response
answer_of endpoint =
    if str_eq endpoint (imds_server <> "/latest/meta-data/mac") then body "02:00" else body networks

-- The network counts its requests.
abbrev http : Http
http = record { Net = ℕ; get = λ endpoint n. (answer_of endpoint, suc n) }

abbrev deployment : ObjectMeta
deployment = record (new_meta "gatherer" namespace) { uid = "9" }

abbrev outside : Outside site client http
outside = record { net = 0; cluster = record { metadata = new_meta "" ""; body = [] } }

succeeds_always :
    (o : Outside site client http)
    → (gather_and_save_data site client http imds_server deployment o).0 ≡ none
unfolding gather_and_save_data save_data saved imds_fetch_ipv4_cidr fetch_cidrs
    http_get_and_parse_body
succeeds_always o = refl

no_semicolon : has_char b';' networks ≡ false
unfolding has_char
no_semicolon = refl

abbrev later : World site
later = record {
  reconciler = reconciler ready reconcile_strategy_strict [];
  cluster = (gather_and_save_data site client http imds_server deployment outside).1.cluster;
  journal = [];
}

gather_and_save_data-read_vpc_rules_example :
    (read_vpc_rules site later).0 ≡ ok (vpc_egress_rules (split b'\n' networks))
gather_and_save_data-read_vpc_rules_example =
    gather_and_save_data-read_vpc_rules site client http (λ obj mutate c h. (obj, refl)) imds_server
      "02:00" networks deployment outside 1 2 (refl, refl) no_semicolon (succeeds_always outside)
      later refl refl

abbrev wait : ℕ → Outside site client http → Outside site client http
wait seconds o = o

-- An attempt takes two seconds.
abbrev lasts : Outside site client http → ℕ
lasts o = 2

abbrev gatherer : Gatherer site client http
gatherer = record { outside = outside; backoff = 1; elapsed = 0 }

gatherer-succeeds :
    (s : Gatherer site client http) → succeeds site client http deployment lasts wait s ≡ true
unfolding succeeds
gatherer-succeeds s = rw (succeeds_always s.outside) refl

rounds-saves_example :
    (n : ℕ) × (100 ≤ (rounds site client http deployment lasts wait n gatherer).elapsed)
    × ((rounds site client http deployment lasts wait n gatherer).elapsed < 100 + (2 + max_sleep))
    × IsSaved site client http imds_server deployment
        (rounds site client http deployment lasts wait n gatherer).outside
rounds-saves_example =
    rounds-saves site client http deployment lasts wait (λ obj mutate c h. (obj, refl)) gatherer 100
      2 (omega arith, omega arith) (omega arith) (λ n. omega arith)
      (λ n from. gatherer-succeeds (rounds site client http deployment lasts wait n gatherer))
