-- ===== src/Contexts/Defs.antt =====
-- The state of the producer of internal/restconfig/restconfig.go, and its runs on one context.
use subctl.Base.{
  String, String_eq, Text, ◌==◌, Bool, ◌&&◌, List, [], Option, none, some, if◌then◌else◌,
}
use subctl.Base.Dict.{Dict, lookup}
use subctl.Base.Effect.{
  Result, ok, err, Run, new_error, pure, fail, lift, ◌>>=◌, or_wrap, or_report, report_error,
}
use subctl.Broker.Info.{RestConfig}
use subctl.Cluster.Id.{is_empty}
use subctl.Cluster.Info.{ClusterInfo, InfoApi, SubmarinerCr, ServiceDiscoveryCr, new_info}

pub record Context : Type 0 where
  pub cluster : String
  pub auth_info : String

-- clientcmd's api.Config, as far as it is read. Its contexts stand in the order in which the source
-- iterates over them, which Go leaves open.
pub record KubeConfig : Type 0 where
  pub current_context : String
  pub contexts : Dict String Context

pub record Overrides : Type 0 where
  pub client_certificate : String
  pub client_key : String
  pub token : String
  pub token_file : String
  pub username : String
  pub password : String
  pub certificate_authority : String
  pub proxy_url : String
  pub server : String
  pub tls_server_name : String
  pub current_context : String
  pub context_cluster : String
  pub context_auth_info : String
  pub context_namespace : String

pub record Producer : Type 0 where
  pub contexts : List String
  -- ExplicitPath of the loading rules that all configurations share.
  pub explicit_path : String
  pub default_client_config : Option Overrides
  pub prefixed_client_configs : Dict String Overrides
  pub prefixed_kube_configs : Dict String String
  pub in_cluster : Bool
  pub default_namespace : Option String
  pub prefixed_default_namespaces : Dict String String

-- client-go's deferred loading, by the explicit path and the overrides, and the clients.
pub record Loader : Type 0 where
  pub client_config : String → Overrides → Result RestConfig
  pub raw_config : String → Overrides → Result KubeConfig
  pub load_namespace : String → Overrides → Result (String × Bool)
  pub in_cluster_config : Result RestConfig
  -- client.NewProducerFromRestConfig
  pub new_client : RestConfig → Result InfoApi
  -- The version of subctl is older than that of Submariner, where semver reads both.
  pub is_older : Text → Bool

abbrev pub PerContextFn : Type 0
PerContextFn = ClusterInfo → String → Run (Unit {0})

unfoldable pub are_overrides_empty : Overrides → Bool
are_overrides_empty o =
    o.client_certificate == ""
    && (o.client_key == ""
        && (o.token == ""
            && (o.token_file == ""
                && (o.username == ""
                    && (o.password == ""
                        && (o.certificate_authority == ""
                            && (o.proxy_url == ""
                                && (o.server == ""
                                    && (o.tls_server_name == ""
                                        && (o.current_context == ""
                                            && (o.context_cluster == ""
                                                && (o.context_auth_info == ""
                                                    && o.context_namespace == ""))))))))))))

unfoldable pub cluster_name_from_context : KubeConfig → String → Option String
cluster_name_from_context raw override =
    elim (lookup (if override == "" then raw.current_context else override) raw.contexts) [
      | none ↦ none
      | some c ↦ some c.cluster
    ]

abbrev pub or_no_name : RestConfig → Option String → Run (RestConfig × String)
or_no_name config none = fail (new_error "could not obtain the cluster name from kube config")
or_no_name config (some name) = pure (config, name)

-- The version of Submariner, or of service discovery, or none.
abbrev pub version_of : Option SubmarinerCr → Option ServiceDiscoveryCr → Text
version_of (some s) d = s.spec.common.version
version_of none (some d) = d.spec.version
version_of none none = []

abbrev pub or_default : String → Option String → String
or_default ns none = ns
or_default ns (some default) = default

abbrev pub first_of : Option String → Option String → Option String
first_of (some a) b = some a
first_of none b = b

-- The namespace and whether it was given; a default replaces one that was not.
unfoldable pub choose_namespace : String × Bool → Option String → String
choose_namespace (ns, overridden) default = if overridden then ns else or_default ns default

module _ (l : Loader) where
  unfoldable pub get_rest_config_from_config : String → Overrides → Run (RestConfig × String)
  get_rest_config_from_config path o =
      or_wrap "error creating client config" (lift (l.client_config path o)) >>= λ config.
      or_wrap "error creating rest config" (lift (l.raw_config path o)) >>= λ raw.
      or_no_name config (cluster_name_from_context raw o.current_context)

  -- cluster.NewInfo with the client of the configuration.
  unfoldable pub new_cluster_info : String → RestConfig → Run ClusterInfo
  new_cluster_info name config =
      or_wrap "error creating client producer" (lift (l.new_client config)) >>= λ api.
      new_info api name

  unfoldable pub check_version_mismatch : Text → Result (Unit {0})
  check_version_mismatch version =
      if l.is_older version
      then err (new_error "the subctl version %q is older than the deployed Submariner version %q")
      else ok tt

  unfoldable pub run_in_cluster : PerContextFn → Run (Unit {0})
  run_in_cluster function =
      or_report "error retrieving the in-cluster configuration" [] (lift l.in_cluster_config)
      >>= λ config.
          or_report "error building the cluster.Info for the in-cluster configuration" []
            (new_cluster_info "in-cluster" config)
          >>= λ info. function info ""

  -- The part of RunOnSelectedContext that the default configuration is for.
  unfoldable pub run_with : String → Option String → Overrides → PerContextFn → Run (Unit {0})
  run_with path default o function =
      or_report "error retrieving the default configuration" [] (get_rest_config_from_config path o)
      >>= λ config.
          or_report "error building the cluster.Info for the default configuration" []
            (new_cluster_info config.1 config.0)
          >>= λ info.
              (if is_empty (version_of info.submariner_cr info.discovery_cr)
                then pure tt
                else or_report "" [] (
                    lift
                      (check_version_mismatch (version_of info.submariner_cr info.discovery_cr))))
              >>= λ _.
                  or_report "error retrieving the namespace for the default configuration" []
                    (lift (l.load_namespace path o))
                  >>= λ ns. function info (choose_namespace ns default)

  unfoldable pub run_on_selected_context : Producer → PerContextFn → Run (Unit {0})
  run_on_selected_context p function =
      if p.in_cluster then run_in_cluster function else elim p.default_client_config [
        | none ↦ report_error "" [] (new_error "no context provided (this is a programming error)")
        | some o ↦ run_with p.explicit_path p.default_namespace o function
      ]
