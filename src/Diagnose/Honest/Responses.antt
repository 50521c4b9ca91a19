-- ===== src/Diagnose/Honest/Responses.antt =====
-- The metrics check of pkg/diagnose, whose errors are kept until both components were asked.
use subctl.Base.{
  ℕ, ◌+◌, ◌<◌, String, String_eq, ◌==◌, refl, Bool, true, false, [], ◌∷◌, Option, none, some,
  if◌then◌else◌, arith,
}
use subctl.Base.Effect.{
  Error, Result, ok, err, Log, Run, pure, bind_from, case_from, end_from, ◌>>=◌, on_error,
  deferring_end, aggregate, aggregated, fail_if,
}
use subctl.Base.Keep.{Keeps-lift}
use subctl.Cluster.Info.{ClusterInfo, SubmarinerCr}
use subctl.Contexts.Plan.{attempt}
use subctl.Diagnose.{failures}
use subctl.Diagnose.Tally.{
  errors, AtLeast, Exactly, Judged, IsHonest, IsHonest-pure, IsHonest-report_error, IsHonest-if,
  IsHonest-or_report, IsHonest-bind, IsHonest-emit,
}
use subctl.Diagnose.Firewall.{FirewallApi, Library}
use subctl.Diagnose.Metrics.{
  check_response, ask_metrics, check_nodes_metrics, check_component_metrics,
  check_globalnet_metrics, check_metrics_config,
}
use subctl.Diagnose.Honest.Probes.{spawn_pod-Keeps, await_output-Keeps, has_single_node-Keeps}
use subctl.Diagnose.Honest.Walls.{quiet, IsHonest-deleting}

-- As for a run with an error, for one that hands its error on.
abbrev Noted : {C : Type 0} → ℕ → ℕ → Result (Option Error × C) × Log → Type 0
Noted a b (ok (none, c), log) = Exactly a b log
Noted a b (ok (some e, c), log) = AtLeast a b log × (a + b < failures log + errors log)
Noted a b (err e, log) = AtLeast a b log × (a + b < failures log + errors log)

record IsCandid {C : Type 0} (m : Run (Option Error × C)) : Type 0 where
  pub run : (a b : ℕ) (log : Log) → Exactly a b log → Noted a b (m log)

IsCandid-bind :
    {A C : Type 0} (m : Run A) (f : A → Run (Option Error × C))
    → IsHonest m
    → ((x : A) → IsCandid (f x))
    → IsCandid (m >>= f)
unfolding ◌>>=◌
IsCandid-bind {A} {C} m f h k = record {
  run = λ a b log s. by_result a b (m log) (h.run a b log s);
}
  where
    by_result : (a b : ℕ) (r : Result A × Log) → Judged a b r → Noted a b (bind_from r f)
    by_result a b (ok x, log) j = (k x).run a b log j
    by_result a b (err e, log) j = j

IsCandid-deferring_end :
    {C : Type 0} (m : Run (Option Error × C)) → IsCandid m → IsCandid (deferring_end m)
unfolding deferring_end failures errors
IsCandid-deferring_end {C} m h = record {
  run = λ a b log s. by_result a b (m log) (h.run a b log s);
}
  where
    by_result :
        (a b : ℕ) (r : Result (Option Error × C) × Log) → Noted a b r → Noted a b (end_from r)
    by_result a b (ok (none, c), log) j = (omega (arith, j.0), omega (arith, j.1))
    by_result a b (ok (some e, c), log) j =
        ((omega (arith, j.0.0), omega (arith, j.0.1)), omega (arith, j.1))
    by_result a b (err e, log) j =
        ((omega (arith, j.0.0), omega (arith, j.0.1)), omega (arith, j.1))

IsCandid-settled :
    {A C : Type 0} (m : Run A) (k : A → Run (Unit {0})) (keep : A → C) (c : C)
    → IsHonest m
    → ((x : A) → IsHonest (k x))
    → IsCandid (on_error m (λ x. attempt (k x) >>= λ e. pure (e, keep x)) (λ e. pure (some e, c)))
unfolding on_error attempt ◌>>=◌ pure
IsCandid-settled {A} {C} m k keep c h h' = record {
  run = λ a b log s. by_result a b (m log) (h.run a b log s);
}
  where
    settled :
        (a b : ℕ) (d : C) (r : Result (Unit {0}) × Log)
        → Judged a b r
        → Noted a b (
            bind_from
              (case_from r (λ _ log. (ok none, log)) (λ x log. (ok (some x), log)))
              (λ e log. (ok (e, d), log)))
    settled a b d (ok x, log) j = j
    settled a b d (err e, log) j = j

    by_result :
        (a b : ℕ) (r : Result A × Log)
        → Judged a b r
        → Noted a b
            (case_from r (λ x. attempt (k x) >>= λ e. pure (e, keep x)) (λ e. pure (some e, c)))
    by_result a b (ok x, log) j = settled a b (keep x) (k x log) ((h' x).run a b log j)
    by_result a b (err e, log) j = j

-- The errors of two such runs are joined.
IsHonest-joined :
    {C : Type 0} (m : Run (Option Error × C)) (f : C → Run (Option Error × C))
    → IsCandid m
    → ((c : C) → IsCandid (f c))
    → IsHonest (m >>= λ x. f x.1 >>= λ y. aggregate (x.0 ∷ (y.0 ∷ [])))
unfolding ◌>>=◌ aggregate
IsHonest-joined {C} m f h k = record { run = λ a b log s. first a b (m log) (h.run a b log s) }
  where
    grown :
        (a b : ℕ) (before : Log) (e : Error) (r : Result (Option Error × C) × Log)
        → AtLeast a b before × (a + b < failures before + errors before)
        → Noted (failures before) (errors before) r
        → Judged a b (bind_from r (λ y log. fail_if (aggregated (some e ∷ (y.0 ∷ []))) log))
    grown a b before e (ok (none, c), log) j l =
        ((omega (arith, j.0.0, l.0), omega (arith, j.0.1, l.1)), omega (arith, j.1, l.0, l.1))
    grown a b before e (ok (some x, c), log) j l =
        ((omega (arith, j.0.0, l.0.0), omega (arith, j.0.1, l.0.1)), omega (arith, j.1, l.1))
    grown a b before e (err x, log) j l =
        ((omega (arith, j.0.0, l.0.0), omega (arith, j.0.1, l.0.1)), omega (arith, j.1, l.1))

    second :
        (a b : ℕ) (r : Result (Option Error × C) × Log)
        → Noted a b r
        → Judged a b (bind_from r (λ y log. fail_if (aggregated (none ∷ (y.0 ∷ []))) log))
    second a b (ok (none, c), log) j = j
    second a b (ok (some e, c), log) j = j
    second a b (err e, log) j = j

    first :
        (a b : ℕ) (r : Result (Option Error × C) × Log)
        → Noted a b r
        → Judged a b (
            bind_from r (λ x log.
              bind_from (f x.1 log) (λ y log'. fail_if (aggregated (x.0 ∷ (y.0 ∷ []))) log')))
    first a b (ok (none, c), log) j = second a b (f c log) ((k c).run a b log j)
    first a b (ok (some e, c), log) j =
        grown a b log e (f c log) j ((k c).run (failures log) (errors log) log (refl, omega arith))
    first a b (err e, log) j = j

module _ (l : Library) (api : FirewallApi) where
  ask_metrics-IsHonest :
      (ns component command : String) (repo : subctl.Cluster.Overrides.RepositoryInfo)
      → IsHonest (ask_metrics l api ns component command repo)
  unfolding ask_metrics check_response
  ask_metrics-IsHonest ns component command repo =
      IsHonest-bind _ _
        (IsHonest-or_report _ _ _ (quiet _ (λ Q adds. spawn_pod-Keeps Q adds api.pods _)))
        λ client. IsHonest-deleting api.pods _ client _ (
          IsHonest-bind _ _
            (IsHonest-or_report _ _ _
              (quiet _ (λ Q adds. await_output-Keeps Q adds api.pods _ client)))
            λ out. IsHonest-if _ _ _ (IsHonest-pure _) (IsHonest-report_error _ _ _))

  check_nodes_metrics-IsHonest :
      (ns component command : String) (single : Bool)
      → IsHonest (check_nodes_metrics l api ns component command single)
  unfolding check_nodes_metrics
  check_nodes_metrics-IsHonest ns component command single =
      IsHonest-if _ _ _ (IsHonest-emit _ refl) (
        IsHonest-bind _ _ (IsHonest-or_report _ _ _ (record { kept = λ a b. Keeps-lift _ _ }))
          (ask_metrics-IsHonest ns component command))

  check_component_metrics-IsCandid :
      (ns component command : String) (info : ClusterInfo)
      → IsCandid (check_component_metrics l api ns component command info)
  unfolding check_component_metrics
  check_component_metrics-IsCandid ns component command info =
      IsCandid-bind _ _ (IsHonest-emit _ refl) λ _. IsCandid-deferring_end _ (
        IsCandid-settled _ (λ found. check_nodes_metrics l api ns component command found.0)
          (λ found. found.1) info
          (IsHonest-or_report _ _ _ (quiet _ (λ Q adds. has_single_node-Keeps Q adds info)))
          (λ found. check_nodes_metrics-IsHonest ns component command found.0))

  check_globalnet_metrics-IsCandid :
      (s : SubmarinerCr) (info : ClusterInfo) → IsCandid (check_globalnet_metrics l api s info)
  unfolding check_globalnet_metrics pure
  check_globalnet_metrics-IsCandid s info = by_test (s.spec.global_cidr == "")
    where
      by_test :
          (b : Bool)
          → IsCandid (
              if b
              then pure (none, info)
              else check_component_metrics l api s.submariner_namespace "globalnet"
                  "curl -I -m 10 --retry 6 submariner-globalnet-metrics.submariner-operator.svc.cluster.local:8081/metrics"
                  info)
      by_test true = record { run = λ a b log h. h }
      by_test false = check_component_metrics-IsCandid _ _ _ info

  pub check_metrics_config-IsHonest :
      (s : SubmarinerCr) (info : ClusterInfo) → IsHonest (check_metrics_config l api s info)
  unfolding check_metrics_config
  check_metrics_config-IsHonest s info =
      IsHonest-joined _ (check_globalnet_metrics l api s)
        (check_component_metrics-IsCandid s.submariner_namespace "gateway" _ info)
        (check_globalnet_metrics-IsCandid s)
