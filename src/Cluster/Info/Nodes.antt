-- ===== src/Cluster/Info/Nodes.antt =====
-- What the reads of pkg/cluster/info.go answer.
use subctl.Base.{
  ℕ, String_eq, ◌≡◌, refl, sym, ap, subst, Bool, true, nat_eq, List, [], ◌∷◌, length, Option, none,
  some, Bool-cases, Elem, inl, inr,
}
use subctl.Base.Effect.{ok, Log, pure}
use subctl.Base.Ensure.{Ensures, Any, Succeeds, Ensures-pure, Ensures-then}
use subctl.Cluster.Info.{Endpoint, ClusterInfo, has_single_node, count_nodes, first_endpoint}

-- The answer is kept: asked again it is the same, without a call of the API.
abbrev pub IsCached : Bool × ClusterInfo → Type 0
IsCached a = (later : Log) → has_single_node a.1 later ≡ (ok a, later)

cached : (c : ClusterInfo) (n : ℕ) → c.node_count ≡ some n → IsCached (nat_eq n 1, c)
unfolding has_single_node pure
cached c n e later = ap (λ o. count_nodes c o later) e

count_nodes-Ensures :
    (c : ClusterInfo) (o : Option ℕ)
    → c.node_count ≡ o
    → Ensures Any (count_nodes c o) (λ a _. IsCached a)
unfolding count_nodes
count_nodes-Ensures c (some n) e = Ensures-pure Any _ _ (λ log t. cached c n e)
count_nodes-Ensures c none e =
    Ensures-then Any _ _ _ λ nodes. Ensures-pure Any _ _ (λ log t. cached _ (length nodes) refl)

-- Once HasSingleNode has answered without an error, it gives the same answer at any later time, with no
-- call of the API and no change of what is kept.
pub has_single_node-IsCached :
    (c : ClusterInfo) (log : Log) {a : Bool × ClusterInfo} {after : Log}
    → has_single_node c log ≡ (ok a, after)
    → (later : Log) → has_single_node a.1 later ≡ (ok a, later)
unfolding has_single_node
has_single_node-IsCached c log h =
    subst (Succeeds (λ a _. IsCached a)) h ((count_nodes-Ensures c c.node_count refl).run log tt)

first_endpoint_found :
    (test : Endpoint → Bool) (es : List Endpoint) (e : Endpoint)
    → first_endpoint test es ≡ some e
    → (test e ≡ true) × Elem e es
unfolding first_endpoint
first_endpoint_found test [] e h = cc
first_endpoint_found test (x ∷ es) e h = elim (Bool-cases (test x)) [
  | inl t ↦ here t (rw t at h)
  | inr f ↦ let r = first_endpoint_found test es e (rw f at h) in (r.0, inr r.1)
]
  where
    here : test x ≡ true → some x ≡ some e → (test e ≡ true) × Elem e (x ∷ es)
    here t same = let s : x ≡ e = cc in (subst (λ y. test y ≡ true) s t, inl (sym s))
