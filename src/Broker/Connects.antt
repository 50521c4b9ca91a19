-- ===== src/Broker/Connects.antt =====
-- The configurations with which a command connects to the broker (pkg/broker/info.go).
use subctl.Kube.{data_of}
use subctl.Base.{String_eq, sym, ◌≡◌, refl, subst, Bool, true, false, ◌⊎◌, inl, inr}
use subctl.Base.Effect.{ok, Log, is_not_found, is_unknown_authority}
use subctl.Base.Ensure.{
  Ensures, Any, Succeeds, Ensures-pure, Ensures-fail, Ensures-then, Ensures-if, Ensures-on_error,
  Ensures-on_error_then,
}
use subctl.Base.Results.{Ensures-map}
use subctl.Broker.Info.{
  Info, RestConfig, get_broker_administrator_config_from, Connection, get_and_check,
  get_broker_administrator_config,
}

module _ (c : Connection) (d : Info) where
  get_and_check-config :
      (private insecure : Bool)
      → Ensures Any
          (get_and_check c d private insecure)
          (λ config _. config ≡ get_broker_administrator_config_from d private insecure)
  unfolding get_and_check
  get_and_check-config private insecure = Ensures-then Any _ _ _ λ _.
      Ensures-on_error_then Any _ _ _ _ (λ _. Ensures-pure Any _ _ (λ log p. refl))
        (λ e.
          Ensures-if Any _ (is_not_found e) _ _ (λ _. Ensures-pure Any _ _ (λ log p. refl))
            (λ _. Ensures-fail Any _ e))

  -- It goes to the broker with the token, certificates are left unchecked just as asked for, and there is
  -- no CA data, or that of the token where certificates are checked.
  pub record IsAsked (asked : Bool) (config : RestConfig) : Type 0 where
    pub host : config.host ≡ d.broker_url
    pub bearer_token : config.bearer_token ≡ data_of d.client_token "token"
    pub insecure : config.insecure ≡ asked
    pub ca_data :
        (config.ca_data ≡ "")
        ⊎ ((asked ≡ false) × (config.ca_data ≡ data_of d.client_token "ca.crt"))

  public-IsAsked :
      (asked : Bool) → IsAsked asked (get_broker_administrator_config_from d false asked)
  unfolding get_broker_administrator_config_from
  public-IsAsked asked = record {
    host = refl;
    bearer_token = refl;
    insecure = refl;
    ca_data = inl refl;
  }

  private-IsAsked : IsAsked false (get_broker_administrator_config_from d true false)
  unfolding get_broker_administrator_config_from
  private-IsAsked = record {
    host = refl;
    bearer_token = refl;
    insecure = refl;
    ca_data = inr (refl, refl);
  }

  get_and_check-IsAsked :
      (private asked : Bool)
      → IsAsked asked (get_broker_administrator_config_from d private asked)
      → Ensures Any (get_and_check c d private asked) (λ config _. IsAsked asked config)
  get_and_check-IsAsked private asked h =
      Ensures-map Any _ _ _ (λ config log e. subst (IsAsked asked) (sym e) h)
        (get_and_check-config private asked)

  get_broker_administrator_config-Ensures :
      (insecure : Bool)
      → Ensures Any
          (get_broker_administrator_config c d insecure)
          (λ config _. IsAsked insecure config)
  unfolding get_broker_administrator_config
  get_broker_administrator_config-Ensures true =
      get_and_check-IsAsked false true (public-IsAsked true)
  get_broker_administrator_config-Ensures false =
      Ensures-on_error Any _ _ _ _ _ (get_and_check-IsAsked false false (public-IsAsked false))
        (λ config. Ensures-pure _ _ config (λ log h. h))
        (λ e.
          Ensures-if Any _ (is_unknown_authority e) _ _
            (λ _. get_and_check-IsAsked true false private-IsAsked) (λ _. Ensures-fail Any _ e))

  -- A configuration that GetBrokerAdministratorConfig returns without an error has the broker info's URL
  -- and token, leaves certificates unchecked if and only if that was asked for, and has no CA data, or,
  -- only where certificates are to be checked, the CA data of the client token.
  pub get_broker_administrator_config-IsAsked :
      (insecure : Bool) (log : Log) {config : RestConfig} {after : Log}
      → get_broker_administrator_config c d insecure log ≡ (ok config, after)
      → IsAsked insecure config
  get_broker_administrator_config-IsAsked insecure log h =
      subst (Succeeds (λ config _. IsAsked insecure config)) h
        ((get_broker_administrator_config-Ensures insecure).run log tt)
