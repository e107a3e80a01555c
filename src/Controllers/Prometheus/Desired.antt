-- ===== src/Controllers/Prometheus/Desired.antt =====
-- What a successful `reconcilePrometheus` leaves in the Prometheus resource.
use ocs_osd_deployer.Base.{String, ◌≡◌, ◌≢◌, ◌⊎◌, some, [], ◌∷◌}
use ocs_osd_deployer.Base.Dict.{lookup}
use ocs_osd_deployer.Kube.Monitoring.{RemoteWrite}
use ocs_osd_deployer.Kube.Object.{Object}
use ocs_osd_deployer.Kube.Env.{Env}
use ocs_osd_deployer.Controllers.State.{Config, World}
use ocs_osd_deployer.Templates.Prometheus.{get_relable_regex, alerts, metrics}

module _ (E : Env) where
  -- The entries of a remote write, for a secret's audience.
  abbrev pub filled : Config → String → RemoteWrite
  filled config audience = record {
    url = config.rhobs_endpoint;
    oauth2 = record {
      client_id = record { name = config.rhobs_secret_name; key = "prom-remote-write-config-id" };
      client_secret = record {
        name = config.rhobs_secret_name;
        key = "prom-remote-write-config-secret";
      };
      token_url = config.rhsso_token_endpoint;
      endpoint_params = ("audience", audience) ∷ [];
    };
    write_relabel_configs =
        (record {
          source_labels = "__name__" ∷ "alertname" ∷ [];
          target_label = "";
          regex = get_relable_regex alerts metrics;
          replacement = "";
          action = "keep";
        })
        ∷ [];
  }

  -- The remote write at the end of a run: off, or filled in from a secret with three entries.
  abbrev pub IsRemote : World E → Type 0
  IsRemote s =
      let r = s.reconciler in
      let secret = r.rhobs_remote_write_config_secret in
      let writes = r.prometheus.body.remote_write in
      ((r.config.deployment_type ≡ "converged") × (writes ≡ []))
      ⊎ ((r.config.deployment_type ≢ "converged") × (secret.metadata.uid ≡ "") × (writes ≡ []))
      ⊎ ((r.config.deployment_type ≢ "converged")
          × (secret.metadata.uid ≢ "")
          × (id : String) × (text : String) × (audience : String) × (lookup
                "prom-remote-write-config-id" secret.body
              ≡ some id)
          × (lookup "prom-remote-write-config-secret" secret.body ≡ some text)
          × (lookup "rhobs-audience" secret.body ≡ some audience)
          × (writes ≡ filled r.config audience ∷ []))
