-- ===== src/Broker/Kept.antt =====
-- The runs of pkg/broker/ensure.go and pkg/serviceaccount/ensure.go only add to the log.
use subctl.Base.{ℕ, zero, suc, String, String_eq, Bool, true, false, List, Option, none, some}
use subctl.Base.Effect.{Error, Event, Log, Run, pure, fail}
use subctl.Base.Keep.{Keeps, Adds, keeping, Keeps-bind, Keeps-fail}
use subctl.Kube.{Secret, Client, request, request_secret, request_secrets}
use subctl.Broker.{
  ensure, ensure_gateway_crds, ensure_component, ensure_namespace, get_token_secret_for,
  ensure_secret, await_token, ensure_token_secret, create_new_broker_admin_sa,
  create_broker_administrator_role_and_sa, find_secret, ensure_service_account,
  create_sa_for_cluster,
}

-- What no event makes false of a log, nothing that broker.Ensure does makes false.
module _ (c : Client) (Q : Log → Type 0) (adds : (e : Event) → Adds Q e) where
  await_token_after-Keeps :
      (b : Bool) (s : Secret) (rest : Run Secret)
      → Keeps Q rest
      → Keeps Q (elim b [ true ↦ pure s | false ↦ rest ])
  await_token_after-Keeps true s rest h = search keeping depth 5
  await_token_after-Keeps false s rest h = h

  await_token-Keeps : (n : ℕ) (ns : String) (s : Secret) → Keeps Q (await_token c n ns s)
  unfolding await_token request_secret
  await_token-Keeps zero ns s = Keeps-fail Q _ _
  await_token-Keeps (suc n) ns s =
      Keeps-bind Q _ _ (search (keeping, adds) depth 20)
        (λ found. await_token_after-Keeps _ found _ (await_token-Keeps n ns found))

  found-Keeps :
      (o : Option Secret) (x : Error)
      → Keeps {A = Secret} Q (elim o [ some s ↦ pure s | none ↦ fail x ])
  found-Keeps none x = search keeping depth 5
  found-Keeps (some s) x = search keeping depth 5

  get_token_secret_for-Keeps : (ns sa : String) → Keeps Q (get_token_secret_for c ns sa)
  unfolding get_token_secret_for request_secrets
  get_token_secret_for-Keeps ns sa =
      Keeps-bind Q _ _ (search (keeping, adds) depth 20)
        (λ secrets. found-Keeps (find_secret sa secrets) _)

  ensure_token_secret-Keeps : (ns sa : String) → Keeps Q (ensure_token_secret c ns sa)
  unfolding ensure_token_secret ensure_secret request_secret
  ensure_token_secret-Keeps ns sa =
      search (keeping, adds, get_token_secret_for-Keeps, await_token-Keeps) depth 20

  ensure_component-Keeps : (n : String) → Keeps Q (ensure_component c n)
  unfolding ensure_component ensure_gateway_crds request
  ensure_component-Keeps n = search (keeping, adds) depth 20

  pub ensure-Keeps : (cs : List String) (b : Bool) (ns : String) → Keeps Q (ensure c cs b ns)
  unfolding ensure ensure_namespace create_broker_administrator_role_and_sa
      create_new_broker_admin_sa request
  ensure-Keeps cs b ns =
      search (keeping, adds, ensure_component-Keeps, ensure_token_secret-Keeps) depth 20

  pub create_sa_for_cluster-Keeps : (sa ns : String) → Keeps Q (create_sa_for_cluster c sa ns)
  unfolding create_sa_for_cluster ensure_service_account request
  create_sa_for_cluster-Keeps sa ns = search (keeping, adds, ensure_token_secret-Keeps) depth 20
