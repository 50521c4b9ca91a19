-- ===== src/Contexts/Prefixes.antt =====
-- RunOnSelectedPrefixedContext of internal/restconfig/restconfig.go, for "--tocontext" and the like.
use subctl.Base.{
  String, String_eq, ==_iff, ◌==◌, ◌≡◌, ◌≢◌, refl, sym, subst, Bool, true, false, ◌&&◌, [], ◌∷◌,
  Option, none, some, if◌then◌else◌, arith,
}
use subctl.Base.Dict.{lookup}
use subctl.Base.Effect.{Run, pure, lift, ◌>>=◌, ◌>>◌, or_report}
use subctl.Contexts.Defs.{
  Overrides, Producer, Loader, PerContextFn, are_overrides_empty, first_of, choose_namespace,
  get_rest_config_from_config, new_cluster_info,
}

-- The explicit path that is written into the shared loading rules.
abbrev pub path_or : String → Option String → String
path_or path none = path
path_or path (some given) = if given == "" then path else given

unfoldable pub prefixed_path : Producer → String → String
prefixed_path p prefix = path_or p.explicit_path (lookup prefix p.prefixed_kube_configs)

-- The producer as it is left: a prefix that is set up writes the path that all configurations share.
unfoldable pub after_prefix : Producer → String → Producer
after_prefix p prefix = elim (lookup prefix p.prefixed_client_configs) [
  | none ↦ p
  | some _ ↦ record p { explicit_path = prefixed_path p prefix }
]

unfoldable pub is_selected : String → Overrides → Bool
is_selected path o = if path == "" && are_overrides_empty o then false else true

-- Whether the source takes the user to have selected a context of the prefix.
unfoldable pub is_prefix_selected : Producer → String → Bool
is_prefix_selected p prefix = elim (lookup prefix p.prefixed_client_configs) [
  | none ↦ false
  | some o ↦ is_selected (prefixed_path p prefix) o
]

module _ (l : Loader) where
  unfoldable pub run_with_prefix :
      String → Option String → String → Overrides → PerContextFn → Run (Unit {0})
  run_with_prefix path default prefix o function =
      or_report "error retrieving the configuration for prefix %s" (prefix ∷ [])
        (get_rest_config_from_config l path o)
      >>= λ config.
          or_report "error building the cluster.Info for the configuration for prefix %s"
            (prefix ∷ []) (new_cluster_info l config.1 config.0)
          >>= λ info.
              or_report "error retrieving the namespace for the configuration for prefix %s"
                (prefix ∷ []) (lift (l.load_namespace path o))
              >>= λ ns. function info (choose_namespace ns default)

  -- True, or an error, if a context of the prefix was selected. `after_prefix` is the producer's state
  -- while the function runs and afterwards.
  unfoldable pub run_on_selected_prefixed_context : Producer → String → PerContextFn → Run Bool
  run_on_selected_prefixed_context p prefix function =
      elim (lookup prefix p.prefixed_client_configs) [
        | none ↦ pure false
        | some o ↦
            if is_selected (prefixed_path p prefix) o
            then run_with_prefix (prefixed_path p prefix)
                (first_of (lookup prefix p.prefixed_default_namespaces) p.default_namespace) prefix
                o function
              >> pure true
            else pure false
      ]

-- Two prefixes are set up, and the user has given the kubeconfig `path` for the first of them and
-- nothing for the second, nor a kubeconfig for all.
pub record OnlyFirst (p : Producer) (first second : String) : Type 0 where
  pub path : String
  pub path-ne : path ≢ ""
  pub first_overrides : Overrides
  pub second_overrides : Overrides
  pub first_setup : lookup first p.prefixed_client_configs ≡ some first_overrides
  pub second_setup : lookup second p.prefixed_client_configs ≡ some second_overrides
  pub first_path : lookup first p.prefixed_kube_configs ≡ some path
  pub second_path : lookup second p.prefixed_kube_configs ≡ some ""
  pub nothing_given : are_overrides_empty second_overrides ≡ true
  pub no_path : p.explicit_path ≡ ""

-- Where the user gives a kubeconfig for the first of two prefixes and nothing for the second, the second
-- is not taken to be selected at first; after a run on the first it is, since that wrote its path into
-- the loading rules that both share.
pub is_prefix_selected-after_prefix :
    (p : Producer) (first second : String)
    → OnlyFirst p first second
    → (is_prefix_selected p second ≡ false)
      × (is_prefix_selected (after_prefix p first) second ≡ true)
unfolding is_prefix_selected after_prefix prefixed_path is_selected
is_prefix_selected-after_prefix p first second h = (
  rw (is_prefix_selected, h.second_setup, h.second_path, h.no_path, h.nothing_given) refl,
  subst (λ q. is_prefix_selected q second ≡ true) (sym left) selected,
)
  where
    given : (h.path == "") ≡ false
    given = ground (arith, ==_iff h.path "")

    left : after_prefix p first ≡ record p { explicit_path = h.path }
    left = rw (after_prefix, h.first_setup, h.first_path, given) refl

    selected : is_prefix_selected (record p { explicit_path = h.path }) second ≡ true
    selected = rw (is_prefix_selected, h.second_setup, h.second_path, given) refl
