-- ===== src/Pods/Tests.antt =====
-- A pod of internal/pods/schedule.go that fails to be scheduled, and one that completes.
use subctl.Base.{String, String_eq, ◌≡◌, refl, true, [], ◌∷◌}
use subctl.Base.Effect.{
  Result, ok, err, interrupted, Log, pure, fail, ◌>>=◌, ask, emit, on_error, or_wrap, deferring,
  call, get, create, delete, pod,
}
use subctl.Base.Keep.{Keeps}
use subctl.Pods.{
  Config, invalid_scheduling, Pod, PodApi, succeeded, check_scheduled, is_finished, with_defaults,
  pod_spec, check_ns_labels, delete_scheduled, await_until_scheduled, schedule_pod,
  await_completion, schedule_and_await_completion,
}
use subctl.Pods.Deleted.{IsTidy, schedule_and_await_completion-IsTidy}

abbrev probe : Pod
probe = record { pod_name = "query-x7"; phase = succeeded; message = "tcpdump" }

-- An API server where the pod is created, and awaited as `answer` says.
abbrev site : Result Pod → PodApi
site answer = record {
  nettest_image = λ r. [];
  namespace_labels = λ ns log. ok [];
  create_pod = λ spec ns log. ok probe;
  delete_pod = λ ns n log. ok tt;
  await_pod = λ check ns n log. answer;
}

abbrev timed_out : Result Pod
timed_out = err (record { cause = interrupted; messages = [] })

abbrev config : Config
config = record {
  name = "query";
  scheduling = record { schedule_on = invalid_scheduling; node_name = ""; host_networking = true };
  config_namespace = "";
  command = "ip a";
  image_repository_info = record { name = []; version = []; overrides = [] };
}

run : Result Pod → Result String × Log
unfolding pure fail ◌>>=◌ ask emit on_error or_wrap deferring with_defaults pod_spec check_ns_labels
    delete_scheduled await_until_scheduled schedule_pod await_completion is_finished
    schedule_and_await_completion
run answer = schedule_and_await_completion (site answer) config []

completed : (run (ok probe)).0 ≡ ok "tcpdump"
unfolding run
completed = refl

-- The last call deletes the pod that was not scheduled in time.
given_up :
    (run timed_out).1
    ≡ call delete pod "submariner-operator" "query-x7"
      ∷ call get pod "submariner-operator" "query-x7"
      ∷ call create pod "submariner-operator" "query"
      ∷ []
unfolding run
given_up = refl

probe_named :
    (log : Log) (q : Pod)
    → (site timed_out).await_pod check_scheduled
        (with_defaults config).config_namespace
        probe.pod_name
        log
      ≡ ok q
    → q.pod_name ≡ probe.pod_name
probe_named log q h = cc

schedule_and_await_completion-IsTidy_example :
    Keeps
      (IsTidy (site timed_out) (with_defaults config) probe)
      (schedule_and_await_completion (site timed_out) config)
schedule_and_await_completion-IsTidy_example =
    schedule_and_await_completion-IsTidy (site timed_out) config probe
      (record { created = λ log. refl; named = probe_named; deleted = λ log. refl })
