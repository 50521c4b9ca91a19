-- ===== src/Contexts/Plan.antt =====
-- RunOnAllContexts of internal/restconfig/restconfig.go: which contexts it runs on, and the run.
pub mod Counts
pub mod Groups
pub mod Fair
use subctl.Base.{
  ℕ, ◌+◌, String, String_eq, ◌==◌, Bool, true, false, ltb, List, [], ◌∷◌, ◌++◌, map, Option, none,
  some, if◌then◌else◌,
}
use subctl.Base.Dict.{Dict, lookup, insert}
use subctl.Base.Effect.{
  Error, Result, ok, err, Log, Run, new_error, emit, pure, fail, lift, ◌>>=◌, ◌>>◌, on_error,
  or_report, report_error, warned, aggregate,
}
use subctl.Contexts.Defs.{
  Context, KubeConfig, Overrides, Producer, Loader, PerContextFn, run_in_cluster, run_with,
  run_on_selected_context,
}

-- A Go map answers 0, or the nil slice, for a missing key.
abbrev pub or_zero : Option ℕ → ℕ
or_zero none = 0
or_zero (some n) = n

abbrev pub or_nil : Option (List String) → List String
or_nil none = []
or_nil (some ns) = ns

-- The two maps of the first loop: the contexts of each cluster, and the contexts of each user.
unfoldable pub group_from :
    Dict String (List String) → Dict String Context → Dict String (List String)
group_from d [] = d
group_from d ((name, c) ∷ cs) =
    group_from (insert c.cluster (or_nil (lookup c.cluster d) ++ name ∷ []) d) cs

unfoldable pub count_users : Dict String ℕ → Dict String Context → Dict String ℕ
count_users d [] = d
count_users d ((name, c) ∷ cs) =
    count_users (insert c.auth_info (or_zero (lookup c.auth_info d) + 1) d) cs

abbrev pub user_of : Option Context → String
user_of none = ""
user_of (some c) = c.auth_info

-- How many contexts the user of a context has.
unfoldable pub usage_of : Dict String Context → String → ℕ
usage_of contexts name = or_zero (lookup (user_of (lookup name contexts)) (count_users [] contexts))

-- The loop over the contexts of one cluster: the greatest usage so far, and its context.
unfoldable pub select : (String → ℕ) → ℕ × String → List String → ℕ × String
select usage best [] = best
select usage best (n ∷ ns) = select usage (if ltb best.0 (usage n) then (usage n, n) else best) ns

-- A cluster with the context that it is run on. Where it has several they are the candidates.
pub record Choice : Type 0 where
  pub chosen_cluster : String
  pub chosen_context : String
  pub candidates : List String

unfoldable pub choose : (String → ℕ) → String × List String → Choice
choose usage (c, n ∷ []) = record { chosen_cluster = c; chosen_context = n; candidates = [] }
choose usage (c, ns) = record {
  chosen_cluster = c;
  chosen_context = (select usage (0, "") ns).1;
  candidates = ns;
}

-- `iterate` is the order in which Go ranges over the map of the clusters.
abbrev pub Iterate : Type 0
Iterate = Dict String (List String) → Dict String (List String)

unfoldable pub plan : Iterate → Dict String Context → List Choice
plan iterate contexts = map (choose (usage_of contexts)) (iterate (group_from [] contexts))

-- `contextErrors = append(contextErrors, …)`: the error of a run, or nil.
unfoldable pub attempt : Run (Unit {0}) → Run (Option Error)
attempt m = on_error m (λ _. pure none) (λ e. pure (some e))

unfoldable pub attempt_each :
    {A : Type 0} → (A → Run (Unit {0})) → List A → Run (List (Option Error))
attempt_each body [] = pure []
attempt_each body (x ∷ xs) = attempt (body x) >>= λ e. attempt_each body xs >>= λ es. pure (e ∷ es)

abbrev pub warn_several : Choice → List String → Run (Unit {0})
warn_several ch [] = pure tt
warn_several ch (n ∷ ns) =
    emit (warned "Found multiple kube contexts for cluster %q" (ch.chosen_context ∷ (n ∷ ns)))

module _ (l : Loader) (iterate : Iterate) where
  -- overrideContextAndRun, less the name of the cluster that it prints. It is only called where there is
  -- a default configuration and no in-cluster one; the context that it leaves selected is replaced in
  -- the next round.
  unfoldable pub override_context_and_run :
      Producer → Overrides → PerContextFn → String → Run (Unit {0})
  override_context_and_run p o function name =
      run_with l p.explicit_path p.default_namespace (record o { current_context = name }) function

  abbrev pub run_found :
      Producer → Overrides → PerContextFn → String → Option Context → Run (Unit {0})
  run_found p o function name none =
      report_error "" [] (new_error "no Kubernetes context found named %s")
  run_found p o function name (some c) = override_context_and_run p o function name

  unfoldable pub run_choice : Producer → Overrides → PerContextFn → Choice → Run (Unit {0})
  run_choice p o function ch =
      warn_several ch ch.candidates >> override_context_and_run p o function ch.chosen_context

  unfoldable pub run_contexts :
      Producer → Overrides → PerContextFn → KubeConfig → List String → Run (Unit {0})
  run_contexts p o function raw (n ∷ ns) =
      attempt_each (λ name. run_found p o function name (lookup name raw.contexts)) (n ∷ ns)
      >>= λ errors. aggregate errors
  run_contexts p o function raw [] = elim raw.contexts [
    | [] ↦ report_error "" [] (new_error "no Kubernetes configuration or context was found")
    | (c ∷ cs) ↦ attempt_each (run_choice p o function) (plan iterate (c ∷ cs)) >>= λ errors.
        aggregate errors
  ]

  unfoldable pub run_on_all_contexts : Producer → PerContextFn → Run (Unit {0})
  run_on_all_contexts p function =
      if p.in_cluster then run_in_cluster l function else elim p.default_client_config [
        | none ↦ report_error "" [] (new_error "no context provided (this is a programming error)")
        | some o ↦
            if o.current_context == ""
            then (or_report "error retrieving the raw kubeconfig setup" []
                  (lift (l.raw_config p.explicit_path o))
                >>= λ raw. run_contexts p o function raw p.contexts)
            else run_on_selected_context l p function
      ]
