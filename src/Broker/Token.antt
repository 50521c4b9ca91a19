-- ===== src/Broker/Token.antt =====
-- Service accounts come with their tokens (pkg/serviceaccount/ensure.go, pkg/broker/ensure.go).
use subctl.Base.{
  ℕ, zero, suc, String, String_eq, ==_iff, ◌==◌, ◌≡◌, refl, Bool, true, false, List, [], ◌∷◌,
  Option, some, if◌then◌else◌, Elem, inl, inr, subst, ap, ◌∙◌, ◌⊎◌,
}
use subctl.Base.Dict.{lookup}
use subctl.Base.Effect.{ok, Log, pure, is_interrupted}
use subctl.Base.Ensure.{
  Ensures, Any, Succeeds, Ensures-pure, Ensures-fail, Ensures-then, Ensures-if, Ensures-on_error,
  Ensures-or_wrap,
}
use subctl.Kube.{Secret, Client, get_or_empty}
use subctl.Broker.{
  find_secret, has_token, service_account_name_key, await_token, ensure_token_secret,
  create_sa_for_cluster, backoff_steps,
}

if_some :
    {A : Type 0} (b : Bool) (x y : A) (r : Option A)
    → (if b then some x else r) ≡ some y
    → ((b ≡ true) × (y ≡ x)) ⊎ (r ≡ some y)
if_some true x y r h = inl (refl, cc)
if_some false x y r h = inr h

-- The secret found is listed, and is annotated with the name of the service account.
pub find_secret_annotated :
    (sa : String) (secrets : List Secret) (s : Secret)
    → find_secret sa secrets ≡ some s
    → Elem s secrets × (get_or_empty (lookup service_account_name_key s.annotations) ≡ sa)
unfolding find_secret
find_secret_annotated sa [] s h = cc
find_secret_annotated sa (x ∷ secrets) s h =
    let name = get_or_empty (lookup service_account_name_key x.annotations) in
    elim (if_some (name == sa) x s (find_secret sa secrets) h) [
      | inl (e, same) ↦ (
        inl same,
        ap (λ t. get_or_empty (lookup service_account_name_key t.annotations)) same
            ∙ (==_iff name sa).0 e,
      )
      | inr rest ↦ let r = find_secret_annotated sa secrets s rest in (inr r.0, r.1)
    ]

module _ (c : Client) where
  await_token-has_token :
      (steps : ℕ) (ns : String) (s : Secret)
      → Ensures Any (await_token c steps ns s) (λ found _. has_token found ≡ true)
  unfolding await_token
  await_token-has_token zero ns s = Ensures-fail Any _ _
  await_token-has_token (suc steps) ns s =
      Ensures-then Any _ _ _
        λ found. again found (has_token found) refl (await_token-has_token steps ns found)
    where
      again :
          (found : Secret) (b : Bool)
          → has_token found ≡ b
          → Ensures Any (await_token c steps ns found) (λ s _. has_token s ≡ true)
          → Ensures Any
              (elim b [ true ↦ pure found | false ↦ await_token c steps ns found ])
              (λ s _. has_token s ≡ true)
      again found true e rest = Ensures-pure Any _ found (λ log p. e)
      again found false e rest = rest

  ensure_token_secret-Ensures :
      (ns sa : String) → Ensures Any (ensure_token_secret c ns sa) (λ s _. has_token s ≡ true)
  unfolding ensure_token_secret
  ensure_token_secret-Ensures ns sa = Ensures-then Any _ _ _ λ s.
      Ensures-if Any _ (has_token s) _ _ (λ e. Ensures-pure Any _ s (λ log p. e))
        (λ _.
          Ensures-on_error Any _ _ _ _ _ (await_token-has_token backoff_steps ns s)
            (λ a. Ensures-pure _ _ a (λ log h. h))
            (λ e.
              Ensures-if Any _ (is_interrupted e) _ _ (λ _. Ensures-fail Any _ _)
                (λ _. Ensures-fail Any _ e)))

  -- The secret that EnsureTokenSecret returns without an error, found, created or waited for, holds a
  -- token that is not empty.
  pub ensure_token_secret-has_token :
      (ns sa : String) (log : Log) {s : Secret} {after : Log}
      → ensure_token_secret c ns sa log ≡ (ok s, after)
      → has_token s ≡ true
  ensure_token_secret-has_token ns sa log e =
      subst (Succeeds (λ s _. has_token s ≡ true)) e
        ((ensure_token_secret-Ensures ns sa).run log tt)

  create_sa_for_cluster-Ensures :
      (sa ns : String) → Ensures Any (create_sa_for_cluster c sa ns) (λ s _. has_token s ≡ true)
  unfolding create_sa_for_cluster
  create_sa_for_cluster-Ensures sa ns =
      Ensures-then Any _ _ _ λ _.
        Ensures-then Any _ _ _ λ _. Ensures-or_wrap Any _ _ _ (ensure_token_secret-Ensures ns sa)

  -- The secret that CreateSAForCluster returns without an error, for the joining cluster to connect to
  -- the broker with, holds a token that is not empty.
  pub create_sa_for_cluster-has_token :
      (sa ns : String) (log : Log) {s : Secret} {after : Log}
      → create_sa_for_cluster c sa ns log ≡ (ok s, after)
      → has_token s ≡ true
  create_sa_for_cluster-has_token sa ns log e =
      subst (Succeeds (λ s _. has_token s ≡ true)) e
        ((create_sa_for_cluster-Ensures sa ns).run log tt)
