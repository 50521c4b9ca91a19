-- ===== src/Pods/Completed.antt =====
-- What ScheduleAndAwaitCompletion of internal/pods/schedule.go answers.
use subctl.Base.{String, String_eq, ◌≡◌, refl, subst, true, Bool-cases, inl, inr}
use subctl.Base.Effect.{Result, ok, err, Log, Run, deferring, after_from}
use subctl.Base.Ensure.{
  Ensures, Any, Succeeds, Ensures-ask, Ensures-bind, Ensures-then, Ensures-or_wrap, Ensures-pure,
}
use subctl.Pods.{
  Config, Pod, PodApi, Check, done, not_yet, check_finished, is_finished, with_defaults,
  await_completion, schedule_and_await_completion,
}

-- What AwaitResultOrError answers without an error has passed the check.
abbrev pub AwaitsChecked : PodApi → Type 0
AwaitsChecked api =
    (check : Pod → Check) (ns n : String) (log : Log) (p : Pod)
    → api.await_pod check ns n log ≡ ok p
    → check p ≡ done

-- The output is the message with which a pod has ended.
abbrev pub IsOutput : String → Type 0
IsOutput output = (p : Pod) × (is_finished p.phase ≡ true) × (output ≡ p.message)

finished_of_done : (p : Pod) → check_finished p ≡ done → is_finished p.phase ≡ true
unfolding check_finished
finished_of_done p h = elim (Bool-cases (is_finished p.phase)) [
  | inl e ↦ e
  | inr e ↦ impossible (rw e at h)
]
  where
    impossible : {A : Type 0} → not_yet "Pod status is %v" ≡ done → A
    impossible h = cc

deferring-Ensures :
    {A : Type 0} (P : A → Type 0) (cleanup : Run (Unit {0})) (m : Run A)
    → Ensures Any m (λ a _. P a)
    → Ensures Any (deferring cleanup m) (λ a _. P a)
unfolding deferring
deferring-Ensures {A = A} P cleanup m h = record { run = λ log t. by_result (m log) (h.run log tt) }
  where
    by_result :
        (r : Result A × Log)
        → Succeeds (λ a _. P a) r
        → Succeeds (λ a _. P a) (after_from cleanup r)
    by_result (ok a, log) s = s
    by_result (err e, log) s = tt

module _ (api : PodApi) (h : AwaitsChecked api) where
  await_completion-Ensures :
      (c : Config) (p : Pod) → Ensures Any (await_completion api c p) (λ output _. IsOutput output)
  unfolding await_completion
  await_completion-Ensures c p =
      Ensures-bind Any _ (λ q _. is_finished q.phase ≡ true) _ _
        (Ensures-or_wrap Any _ _ _
          (Ensures-ask Any _ _ _ (λ log q a e. finished_of_done q (h check_finished _ _ log q e))))
        (λ q. Ensures-pure _ _ _ (λ log e. (q, e, rw e refl)))

  schedule_and_await_completion-Ensures :
      (given : Config)
      → Ensures Any (schedule_and_await_completion api given) (λ output _. IsOutput output)
  unfolding schedule_and_await_completion
  schedule_and_await_completion-Ensures given = Ensures-then Any _ _ _ λ _.
      Ensures-then Any _ _ _
        λ p. deferring-Ensures IsOutput _ _ (await_completion-Ensures (with_defaults given) p)

  -- Where the framework's awaiting only answers what passed its check, the output that
  -- ScheduleAndAwaitCompletion returns without an error is the termination message of a pod that has
  -- succeeded or failed.
  pub schedule_and_await_completion-IsOutput :
      (given : Config) (log : Log) {output : String} {after : Log}
      → schedule_and_await_completion api given log ≡ (ok output, after)
      → IsOutput output
  schedule_and_await_completion-IsOutput given log e =
      subst (Succeeds (λ output _. IsOutput output)) e
        ((schedule_and_await_completion-Ensures given).run log tt)
