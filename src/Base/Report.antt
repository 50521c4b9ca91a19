-- ===== src/Base/Report.antt =====
-- Runs that never fail in silence: an error is returned only after `status.Error` has reported one.
use mathlib.Core.Bool.{Bool, true, false}
use mathlib.Core.List.{List, [], ◌∷◌}
use mathlib.Core.Logic.{◌⊎◌, inl, inr}
use Prim.Native.String.{String}
use subctl.Base.Tests.{if◌then◌else◌}
use subctl.Base.Effect.{
  Error, Result, ok, err, Event, Log, Run, pure, bind_from, ◌>>=◌, emit, case_from, on_error,
  report_error, or_report, errored, started, succeeded, failed, warned, ended, call, remote,
  end_from, deferring_end, for_each,
}

abbrev pub IsErrored : Event → Type 0
IsErrored (errored s args) = Unit {0}
IsErrored (started s args) = ⊥
IsErrored (succeeded s args) = ⊥
IsErrored (failed s args) = ⊥
IsErrored (warned s args) = ⊥
IsErrored ended = ⊥
IsErrored (call v r n s) = ⊥
IsErrored (remote v r n s) = ⊥

-- An error report stands in the log.
abbrev pub HasErrored : Log → Type 0
HasErrored [] = ⊥
HasErrored (e ∷ log) = IsErrored e ⊎ HasErrored log

abbrev pub FailsWith : {A : Type 0} → (Log → Type 0) → Result A × Log → Type 0
FailsWith Q (ok a, log) = Unit {0}
FailsWith Q (err e, log) = Q log

pub record Reports {A : Type 0} (m : Run A) : Type 0 where
  pub run : (log : Log) → FailsWith HasErrored (m log)

pub Reports-pure : {A : Type 0} (a : A) → Reports (pure a)
unfolding pure
Reports-pure a = record { run = λ log. tt }

pub Reports-emit : (e : Event) → Reports (emit e)
unfolding emit
Reports-emit e = record { run = λ log. tt }

pub Reports-report_error :
    (A : Type 0) (s : String) (args : List String) (e : Error)
    → Reports (report_error {A = A} s args e)
unfolding report_error
Reports-report_error A s args e = record { run = λ log. inl tt }

bind_from-reports :
    {A B : Type 0} (r : Result A × Log) (f : A → Run B)
    → FailsWith HasErrored r
    → ((a : A) → Reports (f a))
    → FailsWith HasErrored (bind_from r f)
bind_from-reports (ok a, log) f h k = (k a).run log
bind_from-reports (err e, log) f h k = h

pub Reports-bind :
    {A B : Type 0} (m : Run A) (f : A → Run B)
    → Reports m
    → ((a : A) → Reports (f a))
    → Reports (m >>= f)
unfolding ◌>>=◌
Reports-bind m f h k = record { run = λ log. bind_from-reports (m log) f (h.run log) k }

case_from-reports :
    {A B : Type 0} (r : Result A × Log) (f : A → Run B) (g : Error → Run B)
    → ((a : A) → Reports (f a))
    → ((e : Error) → Reports (g e))
    → FailsWith HasErrored (case_from r f g)
case_from-reports (ok a, log) f g k l = (k a).run log
case_from-reports (err e, log) f g k l = (l e).run log

pub Reports-on_error :
    {A B : Type 0} (m : Run A) (f : A → Run B) (g : Error → Run B)
    → ((a : A) → Reports (f a))
    → ((e : Error) → Reports (g e))
    → Reports (on_error m f g)
unfolding on_error
Reports-on_error m f g k l = record { run = λ log. case_from-reports (m log) f g k l }

pub Reports-or_report :
    {A : Type 0} (s : String) (args : List String) (m : Run A) → Reports (or_report s args m)
unfolding or_report
Reports-or_report s args m =
    Reports-on_error m pure (report_error s args) Reports-pure (Reports-report_error _ s args)

pub Reports-if :
    {A : Type 0} (b : Bool) (m k : Run A) → Reports m → Reports k → Reports (if b then m else k)
Reports-if true m k h h' = h
Reports-if false m k h h' = h'

end_from-reports :
    {A : Type 0} (r : Result A × Log) → FailsWith HasErrored r → FailsWith HasErrored (end_from r)
end_from-reports (ok a, log) h = tt
end_from-reports (err e, log) h = inr h

pub Reports-deferring_end : {A : Type 0} (m : Run A) → Reports m → Reports (deferring_end m)
unfolding deferring_end
Reports-deferring_end m h = record { run = λ log. end_from-reports (m log) (h.run log) }

pub Reports-for_each :
    {A : Type 0} (body : A → Run (Unit {0})) (xs : List A)
    → ((a : A) → Reports (body a))
    → Reports (for_each body xs)
unfolding for_each
Reports-for_each body [] h = Reports-pure tt
Reports-for_each body (x ∷ xs) h =
    Reports-bind (body x) (λ _. for_each body xs) (h x) (λ _. Reports-for_each body xs h)

pub ruleset reporting = (
  Reports-pure, Reports-emit, Reports-report_error, Reports-bind, Reports-on_error,
  Reports-or_report, Reports-if, Reports-deferring_end, Reports-for_each,
)
