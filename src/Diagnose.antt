-- ===== src/Diagnose.antt =====
-- pkg/diagnose: what "subctl diagnose" checks. admiral's Tracker, which is not in the repository, hands
-- every report on and remembers whether a failure was among them: here failures are counted in the log.
pub mod Tally
pub mod Deployments
pub mod Connections
pub mod Globalnet
pub mod Exports
pub mod Platform
pub mod Firewall
pub mod Calico
pub mod Metrics
pub mod Honest
pub mod Overlaps
pub mod Unheeded
pub mod Tests
use subctl.Base.{ℕ, ◌+◌, String, Bool, true, false, ltb, List, [], ◌∷◌, if◌then◌else◌}
use subctl.Base.Effect.{
  Error, Result, ok, err, Event, failed, errored, Log, Run, new_error, emit, pure, fail,
}

abbrev pub is_failure : Event → Bool
is_failure (failed format args) = true
is_failure _ = false

-- How often a failure was reported.
unfoldable pub failures : Log → ℕ
failures [] = 0
failures (e ∷ log) = (if is_failure e then 1 else 0) + failures log

-- `if tracker.HasFailures() { return errors.New(message) }; return nil`, where the log was `before`
-- when the tracker was made.
abbrev pub judge : String → Log → Log → Result (Unit {0}) × Log
judge message before after =
    if ltb (failures before) (failures after)
    then (err (new_error message), after)
    else (ok tt, after)

-- Checks that return nothing, under a tracker of their own.
unfoldable pub tracked : String → Run (Unit {0}) → Run (Unit {0})
tracked message m log = judge message log (m log).1

-- `status.Failure(format, args...)`
abbrev pub failure : String → List String → Run (Unit {0})
failure format args = emit (failed format args)
