-- ===== src/Uninstall/Shared.antt =====
-- A broker that other clusters use survives pkg/uninstall/all.go.
use mathlib.Core.Bool.{false≢true}
use subctl.Base.{
  String, ◌≡◌, ◌≢◌, refl, sym, Bool, true, false, ◌∷◌, List, [], not, ◌==◌, String_eq, ==_iff,
  if◌then◌else◌, All, Elem, arith, subst,
}
use subctl.Base.Effect.{ok, Event, Log, pure, ◌>>=◌}
use subctl.Base.Keep.{
  Keeps, keeping, Adds, Adds-All, Keeps-on_error, Keeps-if, Keeps-bind, Keeps-pure,
}
use subctl.Base.Ensure.{
  Ensures, Any, Ensures-pure, Ensures-bind, Ensures-then, Ensures-or_report, Ensures-deferring_end,
  Ensures-if,
}
use subctl.Base.Results.{Keeps-bind_yields, Ensures-ask_known, Ensures-on_error_known}
use subctl.Uninstall.{
  Api, remote_clusters, report_in_use, broker_in_use, delete_broker_namespace,
  delete_broker_if_unused, first_broker, find_broker_namespace, delete_installation, all,
  unlabel_gateway_nodes, delete_cluster_roles_and_bindings,
}
use subctl.Uninstall.Allowed.{
  IsAllowed, ensure_submariner_deleted-Keeps, ensure_service_discovery_deleted-Keeps,
  find_broker_namespace-Keeps, broker_in_use-Keeps, delete_cluster_roles_and_bindings-Keeps,
  unlabel_gateway_nodes-Keeps,
}

-- What the API server answers throughout a run: some broker resource has a namespace with a name, that
-- namespace exists, and some endpoint in it belongs to another cluster.
pub record IsShared (api : Api) (cluster_name : String) : Type 0 where
  pub broker_namespace : String
  pub others : List String
  pub named : broker_namespace ≢ ""
  pub brokers_found : (log : Log) → api.brokers log ≡ ok (broker_namespace ∷ others)
  pub namespace_found : (log : Log) → api.get_namespace broker_namespace log ≡ ok tt
  pub ids : List String
  pub foreign : String
  pub foreign-ne : foreign ≢ cluster_name
  pub foreign-mem : Elem foreign ids
  pub endpoints_found : (log : Log) → api.endpoints broker_namespace log ≡ ok ids

remote_clusters-ne-nil :
    (cluster_name foreign : String) (ids : List String)
    → foreign ≢ cluster_name
    → Elem foreign ids
    → remote_clusters cluster_name ids ≢ []
unfolding remote_clusters
remote_clusters-ne-nil c f [] ne m = absurd m
remote_clusters-ne-nil c f (id ∷ ids) ne m =
    ground (arith, ==_iff id c, remote_clusters-ne-nil c f ids ne)

module _ (api : Api) (cluster_name : String) (shared : IsShared api cluster_name) where
  open shared use {broker_namespace, others, named, ids, foreign}

  report_in_use-true :
      (ns : String) (rest : List String)
      → rest ≢ []
      → Ensures Any (report_in_use api ns rest) (λ b _. b ≡ true)
  unfolding report_in_use
  report_in_use-true ns [] ne = absurd (ne refl)
  report_in_use-true ns (id ∷ rest) ne =
      Ensures-then Any _ _ _ (λ _. Ensures-pure Any _ true (λ log p. refl))

  broker_in_use-true :
      Ensures Any (broker_in_use api broker_namespace cluster_name) (λ b _. b ≡ true)
  unfolding broker_in_use
  broker_in_use-true =
      Ensures-deferring_end Any _ _ (λ a log h. h)
        (Ensures-then Any _ _ _ λ _.
          Ensures-bind Any _ (λ found _. found ≡ ids) _ _
            (Ensures-or_report Any _ _ _ _ (Ensures-ask_known _ _ ids shared.endpoints_found))
            (λ found. record { run = λ log e. (in_use found e).run log tt }))
    where
      in_use :
          (found : List String)
          → found ≡ ids
          → Ensures Any
              (report_in_use api broker_namespace (remote_clusters cluster_name found))
              (λ b _. b ≡ true)
      in_use found e = report_in_use-true _ _ (
          remote_clusters-ne-nil cluster_name foreign found shared.foreign-ne
            (subst (Elem foreign) (sym e) shared.foreign-mem))

  delete_broker_if_unused-false :
      Ensures Any (delete_broker_if_unused api broker_namespace cluster_name) (λ b _. b ≡ false)
  unfolding delete_broker_if_unused
  delete_broker_if_unused-false =
      Ensures-if Any _ (broker_namespace == "") _ _
        (λ q. absurd (named ((==_iff broker_namespace "").0 q)))
        (λ _. Ensures-on_error_known _ _ tt shared.namespace_found _ _ _ (
          Ensures-bind Any _ (λ b _. b ≡ true) _ _ broker_in_use-true
            (λ b. record { run = λ log e. (stays b e).run log tt })))
    where
      stays :
          (b : Bool)
          → b ≡ true
          → Ensures Any
              (if b then pure false else delete_broker_namespace api broker_namespace)
              (λ r _. r ≡ false)
      stays true e = Ensures-pure Any _ false (λ log p. refl)
      stays false e = absurd (false≢true e)

  find_broker_namespace-named :
      Ensures Any (find_broker_namespace api cluster_name) (λ ns _. ns ≡ broker_namespace)
  unfolding find_broker_namespace first_broker
  find_broker_namespace-named =
      Ensures-deferring_end Any _ _ (λ a log h. h)
        (Ensures-then Any _ _ _ λ _.
          Ensures-on_error_known _ _ (broker_namespace ∷ others) shared.brokers_found _ _ _
            (Ensures-then Any _ _ _ λ _. Ensures-pure Any _ broker_namespace (λ log p. refl)))

  abbrev Spared : Log → Type 0
  Spared = All (IsAllowed api.operator_component true)

  Adds-Spared : (e : Event) → IsAllowed api.operator_component true e → Adds Spared e
  Adds-Spared = Adds-All (IsAllowed api.operator_component true)

  -- The branch that deletes the namespace is not reached.
  delete_broker_if_unused-Spared :
      Keeps Spared (delete_broker_if_unused api broker_namespace cluster_name)
  unfolding delete_broker_if_unused
  delete_broker_if_unused-Spared =
      Keeps-if Spared (broker_namespace == "") _ _ (Keeps-pure Spared true) (
        Keeps-on_error Spared _ _ _ (search (keeping, tt) depth 20) (λ _. checked)
          (λ e. search (keeping, tt) depth 20))
    where
      stays :
          (b : Bool)
          → b ≡ true
          → Keeps Spared (if b then pure false else delete_broker_namespace api broker_namespace)
      stays true e = Keeps-pure Spared false
      stays false e = absurd (false≢true e)

      checked : Keeps Spared (
          broker_in_use api broker_namespace cluster_name >>= λ in_use.
          if in_use then pure false else delete_broker_namespace api broker_namespace)
      checked =
          Keeps-bind_yields Spared (λ b. b ≡ true) _ _
            (broker_in_use-Keeps api true Spared Adds-Spared broker_namespace cluster_name)
            broker_in_use-true stays

  -- While another cluster has an endpoint in the namespace of the broker, an uninstallation deletes no
  -- namespace, no custom resource definition and no cluster role binding of the operator, and of the
  -- other bindings only those whose names begin with `submariner-`; it creates and patches nothing and
  -- updates nodes and finalizers only.
  pub all-Spared : (ns : String) → Keeps Spared (all api cluster_name ns)
  unfolding all
  all-Spared ns =
      Keeps-bind Spared _ _
        (ensure_submariner_deleted-Keeps api true Spared Adds-Spared cluster_name ns)
        λ found.
          Keeps-bind Spared _ _
            (Keeps-if Spared found _ _ (Keeps-pure Spared tt)
              (ensure_service_discovery_deleted-Keeps api true Spared Adds-Spared cluster_name ns))
            λ _.
              Keeps-bind_yields Spared (λ b. b ≡ broker_namespace) _ _
                (find_broker_namespace-Keeps api true Spared Adds-Spared cluster_name)
                find_broker_namespace-named
                λ b e. rw e (
                  Keeps-bind_yields Spared (λ d. d ≡ false) _ _ delete_broker_if_unused-Spared
                    delete_broker_if_unused-false after)
    where
      after :
          (d : Bool)
          → d ≡ false
          → Keeps Spared (
              delete_cluster_roles_and_bindings api cluster_name (not d) >>= λ _.
              if d
              then delete_installation api cluster_name ns
              else unlabel_gateway_nodes api cluster_name)
      after true e = absurd (false≢true (sym e))
      after false e =
          Keeps-bind Spared _ _
            (delete_cluster_roles_and_bindings-Keeps api true Spared Adds-Spared cluster_name true
              (λ n h. h))
            (λ _. unlabel_gateway_nodes-Keeps api true Spared Adds-Spared cluster_name)
