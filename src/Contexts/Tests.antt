-- ===== src/Contexts/Tests.antt =====
-- A kubeconfig with three contexts for two clusters, and a producer with two prefixes.
use subctl.Base.{
  String, String_eq, ◌==◌, ==_iff, ◌≡◌, ◌≢◌, refl, Bool, true, false, [], ◌∷◌, map, none, some,
}
use subctl.Base.Dict.{Dict, lookup, insert}
use subctl.Base.Entries.{Distinct}
use subctl.Contexts.Defs.{Context, Overrides, Producer, are_overrides_empty}
use subctl.Contexts.Plan.{choose, select, group_from, count_users, usage_of, Iterate, plan}
use subctl.Contexts.Plan.Fair.{IsOrder, IsFair, plan-IsFair}
use subctl.Contexts.Prefixes.{
  OnlyFirst, is_prefix_selected, after_prefix, is_prefix_selected-after_prefix,
}

context : String → String → Context
context c u = record { cluster = c; auth_info = u }

abbrev contexts : Dict String Context
unfolding context
contexts =
    ("east_admin", context "east" "admin")
    ∷ (("east_ops", context "east" "ops") ∷ (("west_ops", context "west" "ops") ∷ []))

as_listed : Iterate
as_listed d = d

as_listed-IsOrder : IsOrder as_listed
unfolding as_listed
as_listed-IsOrder = record { once = λ d h. h; only = λ d e m. m; every = λ d e m. m }

apart : {a b : String} → (a == b) ≡ false → a ≢ b
apart {a = a} {b = b} e h = differ e ((==_iff a b).1 h)
  where
    differ : {t : Bool} → t ≡ false → t ≡ true → ⊥
    differ e f = cc

contexts-Distinct : Distinct contexts
unfolding contexts
contexts-Distinct = ((apart refl, (apart refl, tt)), ((apart refl, tt), (tt, tt)))

-- "ops" has two contexts, so its context is chosen for "east".
planned : map (λ ch. ch.chosen_context) (plan as_listed contexts) ≡ "east_ops" ∷ ("west_ops" ∷ [])
unfolding contexts plan as_listed choose select group_from count_users usage_of lookup insert
planned = refl

plan-IsFair_example : IsFair contexts (plan as_listed contexts)
plan-IsFair_example = plan-IsFair as_listed as_listed-IsOrder contexts contexts-Distinct

abbrev no_overrides : Overrides
no_overrides = record {
  client_certificate = "";
  client_key = "";
  token = "";
  token_file = "";
  username = "";
  password = "";
  certificate_authority = "";
  proxy_url = "";
  server = "";
  tls_server_name = "";
  current_context = "";
  context_cluster = "";
  context_auth_info = "";
  context_namespace = "";
}

-- "subctl verify --kubeconfig … --tokubeconfig west.yaml", say, without an "extra" context.
abbrev producer : Producer
producer = record {
  contexts = [];
  explicit_path = "";
  default_client_config = some no_overrides;
  prefixed_client_configs = ("to", no_overrides) ∷ (("extra", no_overrides) ∷ []);
  prefixed_kube_configs = ("to", "west.yaml") ∷ (("extra", "") ∷ []);
  in_cluster = false;
  default_namespace = none;
  prefixed_default_namespaces = [];
}

only_to : OnlyFirst producer "to" "extra"
unfolding lookup are_overrides_empty
only_to = record {
  path = "west.yaml";
  path-ne = λ h. cc;
  first_overrides = no_overrides;
  second_overrides = no_overrides;
  first_setup = refl;
  second_setup = refl;
  first_path = refl;
  second_path = refl;
  nothing_given = refl;
  no_path = refl;
}

is_prefix_selected-after_prefix_example :
    (is_prefix_selected producer "extra" ≡ false)
    × (is_prefix_selected (after_prefix producer "to") "extra" ≡ true)
is_prefix_selected-after_prefix_example =
    is_prefix_selected-after_prefix producer "to" "extra" only_to
