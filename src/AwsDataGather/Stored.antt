-- ===== src/AwsDataGather/Stored.antt =====
-- The way of the networks from the metadata server to the egress rules of the controller, through
-- the config map that both programs name.
use mathlib.Core.Option
use ocs_osd_deployer.Base.{String, ◌<>◌, ◌≡◌, refl, false, Option, none, some, ◌∙◌, ap, sym}
use ocs_osd_deployer.Base.Text.{split, replace, has_char}
use ocs_osd_deployer.Base.Dict.{lookup}
use ocs_osd_deployer.Kube.Exec.{Error, ok, wrap, wrap_result, continue, ◌>>=◌}
use ocs_osd_deployer.Kube.Object.{Kind, Object, ObjectMeta}
use ocs_osd_deployer.Kube.Env.{Env}
use ocs_osd_deployer.Utils.Imds.{
  Http, FetchError, Fetched, fetched, fetch_failed, body, imds_fetch_ipv4_cidr, fetch_cidrs,
  http_get_and_parse_body, split-replace, imds_config_map_name, cidr_key, semicolon,
}
use ocs_osd_deployer.Controllers.State.{World}
use ocs_osd_deployer.Controllers.Actions.{or_raise, asks, get, call}
use ocs_osd_deployer.Controllers.Egress.{vpc_egress_rules, read_vpc_rules}
use ocs_osd_deployer.AwsDataGather.{mutate_data}
use ocs_osd_deployer.AwsDataGather.Gather.{
  Client, SavesMutated, Outside, gather_and_save_data, save_data, saved, cidr_failed,
}

second_of : {A B : Type 0} {p q : A × B} → p ≡ q → p.1 ≡ q.1
second_of e = ap (λ x. x.1) e

module _ (http : Http) where
  http_get_and_parse_body-answer :
      (endpoint text : String) (net net' : http.Net)
      → http.get endpoint net ≡ (body text, net')
      → http_get_and_parse_body http endpoint net ≡ (fetched text, net')
  unfolding http_get_and_parse_body
  http_get_and_parse_body-answer endpoint text net net' h =
      rw (h, http_get_and_parse_body, second_of h) refl

  module _ (server mac answer : String) (net first second : http.Net) where
    -- Both requests are answered.
    abbrev pub Answers : Type 0
    Answers =
        (http.get (server <> "/latest/meta-data/mac") net ≡ (body mac, first))
        × (http.get
              (server
                <> ("/latest/meta-data/network/interfaces/macs/"
                    <> (mac <> "/vpc-ipv4-cidr-blocks")))
              first
            ≡ (body answer, second))

    fetch_cidrs-answer :
        Answers
        → fetch_cidrs http server mac first ≡ (fetched (replace b'\n' semicolon answer), second)
    unfolding fetch_cidrs
    fetch_cidrs-answer (h, k) =
        let two = http_get_and_parse_body-answer _ _ _ _ k in
        rw (two, fetch_cidrs, second_of two) refl

    imds_fetch_ipv4_cidr-answer :
        Answers
        → imds_fetch_ipv4_cidr http server net ≡ (fetched (replace b'\n' semicolon answer), second)
    unfolding imds_fetch_ipv4_cidr
    imds_fetch_ipv4_cidr-answer (h, k) =
        let one = http_get_and_parse_body-answer _ _ _ _ h in
        rw (one, imds_fetch_ipv4_cidr, second_of one) (fetch_cidrs-answer (h, k))

module _ (E : Env) (client : Client E) (http : Http) where
  saved-none : (e : Option Error) → saved e ≡ none → e ≡ none
  unfolding saved
  saved-none none h = refl
  saved-none (some e) h = cc

  gather_and_save_data-fetched :
      (server text : String) (deployment : ObjectMeta) (o : Outside E client http) (net : http.Net)
      → imds_fetch_ipv4_cidr http server o.net ≡ (fetched text, net)
      → gather_and_save_data E client http server deployment o
        ≡ save_data E client http deployment text (record o { net = net })
  unfolding gather_and_save_data
  gather_and_save_data-fetched server text deployment o net f =
      rw (f, gather_and_save_data, second_of f) refl

  -- What is stored under the key of the config map.
  save_data-get :
      SavesMutated E client
      → (text : String) (deployment : ObjectMeta) (o : Outside E client http)
      → (save_data E client http deployment text o).0 ≡ none
      → (existing : Object Kind.config_map) × ((E.get Kind.config_map imds_config_map_name
            deployment.namespace
            (save_data E client http deployment text o).1.cluster).0
          ≡ ok (mutate_data deployment text existing))
  unfolding save_data
  save_data-get law text deployment o h = law _ _ o.cluster (saved-none _ h)

  gather_and_save_data-failed :
      (server : String) (deployment : ObjectMeta) (o : Outside E client http) (net : http.Net)
      → (e : FetchError) → imds_fetch_ipv4_cidr http server o.net ≡ (fetch_failed e, net)
      → (gather_and_save_data E client http server deployment o).0 ≡ some (cidr_failed e)
  unfolding gather_and_save_data
  gather_and_save_data-failed server deployment o net e f = rw (f, gather_and_save_data) refl

  -- The config map holds the text that was fetched, and the deployment owns it.
  abbrev pub IsSaved : String → ObjectMeta → Outside E client http → Type 0
  IsSaved server deployment o =
      (cidr : String) × (existing : Object Kind.config_map) × ((imds_fetch_ipv4_cidr http server
          o.net).0
        ≡ fetched cidr)
      × ((E.get Kind.config_map imds_config_map_name deployment.namespace
            (gather_and_save_data E client http server deployment o).1.cluster).0
          ≡ ok (mutate_data deployment cidr existing))

  result-IsSaved :
      SavesMutated E client
      → (server : String) (deployment : ObjectMeta) (o : Outside E client http)
      → (r : Fetched) (net : http.Net) → imds_fetch_ipv4_cidr http server o.net ≡ (r, net)
      → (gather_and_save_data E client http server deployment o).0 ≡ none
      → IsSaved server deployment o
  result-IsSaved law server deployment o (fetch_failed e) net f h =
      absurd
        (Option.none-ne-some _ (sym h ∙ gather_and_save_data-failed server deployment o net e f))
  result-IsSaved law server deployment o (fetched cidr) net f h =
      let e = gather_and_save_data-fetched server cidr deployment o net f in
      let (existing, found) =
        save_data-get law cidr deployment (record o { net = net }) (rw (← e) h) in
      (cidr, existing, ap (λ x. x.0) f, rw e found)

  -- An attempt that ends without an error has saved the data.
  pub gather_and_save_data-IsSaved :
      SavesMutated E client
      → (server : String) (deployment : ObjectMeta) (o : Outside E client http)
      → (gather_and_save_data E client http server deployment o).0 ≡ none
      → IsSaved server deployment o
  gather_and_save_data-IsSaved law server deployment o h =
      result-IsSaved law server deployment o _ _ refl h

  read_vpc_rules-found :
      (w : World E) (obj : Object Kind.config_map) (text : String)
      → (E.get Kind.config_map imds_config_map_name w.reconciler.namespace w.cluster).0 ≡ ok obj
      → lookup cidr_key obj.body ≡ some text
      → (read_vpc_rules E w).0 ≡ ok (vpc_egress_rules (split b';' text))
  unfolding read_vpc_rules asks get call wrap ◌>>=◌ or_raise
  read_vpc_rules-found w obj text h k = rw (h, wrap_result, continue, k) refl

  -- If the metadata server answers both requests with texts that the program can read, the second
  -- one without a semicolon, and the config map is saved without an error by a client that saves
  -- what it is asked to, then the controller, in a run on the cluster as it is then, reads rules
  -- for just the lines of that answer.
  pub gather_and_save_data-read_vpc_rules :
      SavesMutated E client
      → (server mac answer : String) (deployment : ObjectMeta) (o : Outside E client http)
        (first second : http.Net)
      → Answers http server mac answer o.net first second
      → has_char b';' answer ≡ false
      → (gather_and_save_data E client http server deployment o).0 ≡ none
      → (w : World E) → w.reconciler.namespace ≡ deployment.namespace
      → w.cluster ≡ (gather_and_save_data E client http server deployment o).1.cluster
      → (read_vpc_rules E w).0 ≡ ok (vpc_egress_rules (split b'\n' answer))
  unfolding lookup mutate_data
  gather_and_save_data-read_vpc_rules law server mac answer deployment o first second answers plain
        done w same_namespace same_cluster =
      let text = replace b'\n' semicolon answer in
      let o' = record o { net = second } in
      let e =
        gather_and_save_data-fetched server text deployment o second
          (imds_fetch_ipv4_cidr-answer http server mac answer o.net first second answers) in
      let (existing, found) = save_data-get law text deployment o' (rw (← e) done) in
      rw (← split-replace b'\n' semicolon answer plain) (
        read_vpc_rules-found w (mutate_data deployment text existing) text
          (rw (same_namespace, same_cluster, e) found) refl)
