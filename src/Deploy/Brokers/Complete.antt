-- ===== src/Deploy/Brokers/Complete.antt =====
-- What a successful broker command has set up, and that it does not fail in silence
-- (pkg/deploy/broker.go).
use subctl.Base.{String, String_eq, ◌≡◌, List, [], ◌∷◌, ◌++◌, subst}
use subctl.Base.Effect.{
  Error, Result, ok, err, Log, apply, replace, broker_cr, global_cidr, clusterset_cidr,
}
use subctl.Base.Report.{Reports, reporting, HasErrored, FailsWith}
use subctl.Base.Steps.{Step, answered}
use subctl.Kube.{Client, event}
use subctl.Operator.{operator_namespace}
use subctl.Operator.Complete.{operator_steps}
use subctl.Deploy.Brokers.{
  BrokerSpec, BrokerOptions, Discovery, check_globalnet_config, deploy, broker_with, broker,
}

module _ (d : Discovery) (c : Client) where
  deploy-Reports : (ns : String) (spec : BrokerSpec) → Reports (deploy d c ns spec)
  unfolding deploy
  deploy-Reports ns spec = search reporting depth 20

  broker_with-Reports :
      (cs : List String) (ns : String) (spec : BrokerSpec) → Reports (broker_with d c cs ns spec)
  unfolding broker_with
  broker_with-Reports cs ns spec = search (reporting, deploy-Reports) depth 20

  broker-Reports : (options : BrokerOptions) → Reports (broker d c options)
  unfolding broker
  broker-Reports options = search (reporting, broker_with-Reports) depth 20

  -- A broker command that starts with nothing logged and returns an error has reported an error through
  -- `status.Error`, whatever the API server answers and wherever it stops.
  pub broker_reports :
      (options : BrokerOptions) {e : Error} {after : Log}
      → broker d c options [] ≡ (err e, after)
      → HasErrored after
  broker_reports options h = subst (FailsWith HasErrored) h ((broker-Reports options).run [])

module _ (d : Discovery) (c : Client) where
  abbrev pub deploy_steps : String → BrokerSpec → List Step
  deploy_steps ns spec =
      operator_steps c operator_namespace
      ++ (answered (event c replace broker_cr ns "submariner-broker") (d.replace_broker spec) ∷ [])

  abbrev pub broker_steps : String → BrokerSpec → List Step
  broker_steps ns spec =
      deploy_steps ns spec
      ++ (answered (event c apply global_cidr ns "") (
            d.create_global_config_map spec.globalnet_enabled spec.globalnet_cidr_range
              spec.default_globalnet_cluster_size ns)
          ∷ answered (event c apply clusterset_cidr ns "") (
              d.create_clusterset_config_map spec.clusterset_ip_enabled
                spec.clusterset_ip_cidr_range 0 ns)
          ∷ [])

  -- The steps for the specification that the check returns.
  abbrev checked_steps : (BrokerSpec → List Step) → Result BrokerSpec → List Step
  checked_steps steps (ok spec) = steps spec
  checked_steps steps (err e) = []

  abbrev pub broker_command_steps : BrokerOptions → List Step
  broker_command_steps options =
      checked_steps (broker_steps options.broker_namespace)
        (check_globalnet_config d options.broker_spec)
