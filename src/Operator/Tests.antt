-- ===== src/Operator/Tests.antt =====
-- A run of pkg/operator/ensure.go on a cluster that accepts every call.
use subctl.Base.{refl, []}
use subctl.Base.Effect.{Result, Log, pure, fail, ◌>>=◌, ask, emit, on_error, or_wrap}
use subctl.Base.Steps.{Happened}
use subctl.Kube.{request, request_created, report_created}
use subctl.Kube.Samples.{friendly_client}
use subctl.Broker.{ensure_namespace}
use subctl.Operator.{
  any_created, ensure_from_yaml, ensure_crds, ensure_operator_accounts, is_ocp_platform,
  ensure_component_rbac, ensure_rbac, ensure_role_binding, ensure_submariner_accounts,
  ensure_submariner, ensure_lighthouse_pair, ensure_lighthouse_accounts, ensure_lighthouse,
  ensure_deployment, ensure_operator,
}
use subctl.Operator.Complete.{operator_steps, ensure_operator-Complete}

run : Result (Unit {0}) × Log
unfolding pure fail ◌>>=◌ ask emit on_error or_wrap request request_created report_created
    ensure_namespace any_created ensure_from_yaml ensure_crds ensure_operator_accounts
    is_ocp_platform ensure_component_rbac ensure_rbac ensure_role_binding ensure_submariner_accounts
    ensure_submariner ensure_lighthouse_pair ensure_lighthouse_accounts ensure_lighthouse
    ensure_deployment ensure_operator
run = ensure_operator friendly_client "ns" []

ensure_operator-Complete_example : Happened (operator_steps friendly_client "ns") run.1
unfolding run
ensure_operator-Complete_example = ensure_operator-Complete friendly_client "ns" [] refl
