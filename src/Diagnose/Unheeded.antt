-- ===== src/Diagnose/Unheeded.antt =====
-- pkg/diagnose/kubeproxy.go: a failure of this check is not returned.
use subctl.Base.{ℕ, ◌<◌, String, ◌≡◌, subst, arith, Bool, true, false, if◌then◌else◌, refl}
use subctl.Base.Effect.{
  Result, ok, err, Event, Log, Run, emit, bind_from, end_from, ◌>>=◌, deferring_end,
}
use subctl.Base.Keep.{Keeps, Adds, keeping}
use subctl.Pods.{PodApi, Config, schedule_and_await_completion}
use subctl.Base.Report.{FailsWith}
use subctl.Cluster.Info.{SubmarinerCr}
use subctl.Diagnose.{failures, is_failure}
use subctl.Diagnose.Tally.{errors, Exactly, Exactly-Adds, Quiet}
use subctl.Diagnose.Honest.Probes.{schedule_and_await_completion-Keeps}
use subctl.Diagnose.Platform.{KubeProxyApi, judge_output, kube_proxy_mode}

-- A run that has reported no failure where it returns an error.
record IsUnheeded (m : Run (Unit {0})) : Type 0 where
  pub run : (a b : ℕ) (log : Log) → Exactly a b log → FailsWith (Exactly a b) (m log)

IsUnheeded-bind :
    {A : Type 0} (m : Run A) (f : A → Run (Unit {0}))
    → Quiet m
    → ((x : A) → IsUnheeded (f x))
    → IsUnheeded (m >>= f)
unfolding ◌>>=◌
IsUnheeded-bind {A} m f q h = record {
  run = λ a b log p. by_result a b (m log) ((q.kept a b).run log p);
}
  where
    by_result :
        (a b : ℕ) (r : Result A × Log) → Exactly a b r.1 → FailsWith (Exactly a b) (bind_from r f)
    by_result a b (ok x, log) p = (h x).run a b log p
    by_result a b (err e, log) p = p

IsUnheeded-deferring_end : (m : Run (Unit {0})) → IsUnheeded m → IsUnheeded (deferring_end m)
unfolding deferring_end
IsUnheeded-deferring_end m h = record { run = λ a b log p. by_result a b (m log) (h.run a b log p) }
  where
    by_result :
        (a b : ℕ) (r : Result (Unit {0}) × Log)
        → FailsWith (Exactly a b) r
        → FailsWith (Exactly a b) (end_from r)
    by_result a b (ok x, log) p = tt
    by_result a b (err e, log) p = (Exactly-Adds a b _ refl).add log p

IsUnheeded-emit : (e : Event) → IsUnheeded (emit e)
unfolding emit
IsUnheeded-emit e = record { run = λ a b log p. tt }

IsUnheeded-if :
    (t : Bool) (m k : Run (Unit {0}))
    → IsUnheeded m
    → IsUnheeded k
    → IsUnheeded (if t then m else k)
IsUnheeded-if true m k h h' = h
IsUnheeded-if false m k h h' = h'

adds : (a b : ℕ) (e : Event) → is_failure e ≡ false → Adds (Exactly a b) e
adds a b e quiet = Exactly-Adds a b e quiet

module _ (api : KubeProxyApi) where
  scheduled :
      (a b : ℕ) (p : PodApi) (c : Config) → Keeps (Exactly a b) (schedule_and_await_completion p c)
  scheduled a b p c = schedule_and_await_completion-Keeps (Exactly a b) (adds a b) p c

  judge_output-IsUnheeded : (output : String) → IsUnheeded (judge_output api output)
  unfolding judge_output
  judge_output-IsUnheeded output = IsUnheeded-if _ _ _ (IsUnheeded-emit _) (IsUnheeded-emit _)

  kube_proxy_mode-IsUnheeded :
      (s : SubmarinerCr) (ns : String) → IsUnheeded (kube_proxy_mode api s ns)
  unfolding kube_proxy_mode
  kube_proxy_mode-IsUnheeded s ns =
      IsUnheeded-bind _ _ (record { kept = λ a b. search (keeping, adds a b) depth 10 })
        λ _. IsUnheeded-deferring_end _ (
          IsUnheeded-if _ _ _ (IsUnheeded-emit _) (
            IsUnheeded-bind _ _ (record { kept = λ a b. search (keeping, adds a b) depth 10 })
              λ repo.
                IsUnheeded-bind _ _
                  (record { kept = λ a b. search (keeping, adds a b, scheduled a b) depth 10 })
                  λ output. judge_output-IsUnheeded output))

-- Whenever the check of kube-proxy's mode reports a failure, it returns no error: the failure is not
-- heeded.
pub kube_proxy_mode_unheeded :
    (api : KubeProxyApi) (s : SubmarinerCr) (ns : String) (log : Log) {r : Result (Unit {0})}
    {after : Log}
    → kube_proxy_mode api s ns log ≡ (r, after)
    → failures log < failures after
    → r ≡ ok tt
kube_proxy_mode_unheeded api s ns log {r} {after} h more = by_result r (
    subst (FailsWith (Exactly (failures log) (errors log))) h (
      (kube_proxy_mode-IsUnheeded api s ns).run (failures log) (errors log) log
        (refl, omega arith)))
  where
    by_result :
        (r : Result (Unit {0}))
        → FailsWith (Exactly (failures log) (errors log)) (r, after)
        → r ≡ ok tt
    by_result (ok _) p = refl
    by_result (err e) p = elim (absurd p.0) [ ]
      where
        absurd : failures after ≡ failures log → ⊥
        absurd same = omega (arith, same, more)
