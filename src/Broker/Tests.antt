-- ===== src/Broker/Tests.antt =====
-- Runs of pkg/serviceaccount/ensure.go and pkg/broker/ensure.go.
use subctl.Base.{◌≡◌, refl, true, false, ◌∷◌, [], none, Elem, String_eq, codes, if◌then◌else◌, ◌==◌}
use subctl.Base.Dict.{lookup}
use subctl.Base.Effect.{
  Result, ok, err, unknown_authority, Log, pure, fail, ◌>>=◌, ask, emit, on_error, or_wrap,
  ignore_already_exists,
}
use subctl.Kube.{Secret, get_or_empty, request, request_secret, request_secrets}
use subctl.Kube.Samples.{friendly_client, fresh_secret, token_secret}
use subctl.Broker.{
  find_secret, has_token, new_token_secret, get_token_secret_for, ensure_secret, await_token,
  ensure_token_secret, ensure_service_account, create_sa_for_cluster, service_account_name_key,
}
use subctl.Broker.Info.{
  Info, RestConfig, Connection, get_broker_administrator_config_from, get_and_check,
  get_broker_administrator_config,
}
use subctl.Broker.Connects.{IsAsked, get_broker_administrator_config-IsAsked}
use subctl.Broker.Token.{
  find_secret_annotated, ensure_token_secret-has_token, create_sa_for_cluster-has_token,
}

run : Result Secret × Log
unfolding pure fail ◌>>=◌ ask emit on_error or_wrap ignore_already_exists request request_secret
    request_secrets find_secret has_token get_token_secret_for ensure_secret await_token
    ensure_token_secret new_token_secret lookup
run = ensure_token_secret friendly_client "ns" "cluster-east" []

-- The secret is made, and the first read finds its token.
run_found : run.0 ≡ ok (token_secret "cluster-east-token-")
unfolding run
run_found = refl

ensure_token_secret-has_token_example : has_token (token_secret "cluster-east-token-") ≡ true
unfolding run
ensure_token_secret-has_token_example =
    ensure_token_secret-has_token friendly_client "ns" "cluster-east" [] refl

account_run : Result Secret × Log
unfolding run ensure_service_account create_sa_for_cluster
account_run = create_sa_for_cluster friendly_client "cluster-east" "ns" []

create_sa_for_cluster-has_token_example : has_token (token_secret "cluster-east-token-") ≡ true
unfolding account_run
create_sa_for_cluster-has_token_example =
    create_sa_for_cluster-has_token friendly_client "cluster-east" "ns" [] refl

find_secret_annotated_example :
    Elem (token_secret "west") (token_secret "east" ∷ token_secret "west" ∷ [])
    × (get_or_empty (lookup service_account_name_key (token_secret "west").annotations) ≡ "west")
unfolding find_secret lookup
find_secret_annotated_example =
    find_secret_annotated "west" (token_secret "east" ∷ token_secret "west" ∷ [])
      (token_secret "west") refl

abbrev broker_info : Info
broker_info = record {
  broker_url = codes "https://broker";
  client_token = token_secret "broker";
  ipsec_psk = fresh_secret "submariner-ipsec-psk";
  service_discovery_enabled = false;
  components = [];
  custom_domains = none;
}

-- A broker whose certificate is only known with the CA data of the token.
abbrev private_authority : RestConfig → Result (Unit {0})
private_authority config =
    if config.ca_data == ""
    then err (record { cause = unknown_authority; messages = [] })
    else ok tt

abbrev private_broker : Connection
private_broker = record {
  new_client = λ config log. ok tt;
  list_clusters = λ config ns log. private_authority config;
}

connection_run : Result RestConfig × Log
unfolding pure fail ◌>>=◌ ask on_error or_wrap lookup get_broker_administrator_config_from
    get_and_check get_broker_administrator_config
connection_run = get_broker_administrator_config private_broker broker_info false []

get_broker_administrator_config-IsAsked_example :
    IsAsked private_broker broker_info false
      (get_broker_administrator_config_from broker_info true false)
unfolding connection_run
get_broker_administrator_config-IsAsked_example =
    get_broker_administrator_config-IsAsked private_broker broker_info false [] refl
