-- ===== src/Broker/Info.antt =====
-- pkg/broker/info.go: what a joining cluster knows of the broker, and how it connects to it.
use subctl.Base.{
  String, String_eq, Text, Bool, true, false, ◌||◌, List, Option, contains, if◌then◌else◌,
}
use subctl.Base.Effect.{
  Result, Run, Log, ask, remote, list, get, client, cluster, pure, fail, ◌>>=◌, on_error, or_wrap,
  is_not_found, is_unknown_authority,
}
use subctl.Kube.{Secret, data_of}
use subctl.Broker.{connectivity, service_discovery_component}

pub record Info : Type 0 where
  pub broker_url : Text
  pub client_token : Secret
  pub ipsec_psk : Secret
  pub service_discovery_enabled : Bool
  pub components : List String
  pub custom_domains : Option (List String)

unfoldable pub is_connectivity_enabled : Info → Bool
is_connectivity_enabled d = contains d.components connectivity

unfoldable pub is_service_discovery_enabled : Info → Bool
is_service_discovery_enabled d =
    contains d.components service_discovery_component || d.service_discovery_enabled

-- The fields of rest.Config that are set; no CA data is "".
pub record RestConfig : Type 0 where
  pub host : Text
  pub insecure : Bool
  pub ca_data : String
  pub bearer_token : String

unfoldable pub get_broker_administrator_config_from : Info → Bool → Bool → RestConfig
get_broker_administrator_config_from d private insecure = record {
  host = d.broker_url;
  insecure = insecure;
  ca_data = if private then data_of d.client_token "ca.crt" else "";
  bearer_token = data_of d.client_token "token";
}

-- What the broker's API server answers to a client with some configuration: whether the client can be
-- made, and whether the clusters of a namespace can be listed with it.
pub record Connection : Type 0 where
  pub new_client : RestConfig → Log → Result (Unit {0})
  pub list_clusters : RestConfig → String → Log → Result (Unit {0})

module _ (c : Connection) (d : Info) where
  -- A configuration is good if the clusters can be listed, or are not found.
  unfoldable pub get_and_check : Bool → Bool → Run RestConfig
  get_and_check private insecure =
      let config = get_broker_administrator_config_from d private insecure in
      let ns = data_of d.client_token "namespace" in
      or_wrap "error creating client" (ask (remote get client "" "") (c.new_client config)) >>= λ _.
      on_error (ask (remote list cluster ns "") (c.list_clusters config ns)) (λ _. pure config)
        (λ e. if is_not_found e then pure config else fail e)

  -- A certificate of an unknown authority is tried again with the trust chain of the token.
  unfoldable pub get_broker_administrator_config : Bool → Run RestConfig
  get_broker_administrator_config insecure =
      if insecure
      then get_and_check false true
      else on_error (get_and_check false false) pure
          (λ e. if is_unknown_authority e then get_and_check true false else fail e)
