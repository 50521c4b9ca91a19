-- ===== src/Diagnose/Tally.antt =====
-- What a run does to the number of reported failures and errors.
use mathlib.Core.Option.{none, some}
use subctl.Base.{
  ℕ, ◌+◌, ◌≤◌, ◌<◌, String, ◌≡◌, Bool, true, false, ltb, List, [], ◌∷◌, if◌then◌else◌, arith,
  Bool-cases, inl, inr, ◌⊎◌,
}
use subctl.Base.Effect.{
  Error, Result, ok, err, Event, errored, Log, Run, new_error, emit, pure, fail, bind_from,
  case_from, ◌>>=◌, on_error, or_report, report_error, end_from, deferring_end, aggregate,
  aggregated, fail_if,
}
use subctl.Base.Keep.{Keeps, Adds}
use subctl.Contexts.Plan.{attempt}
use subctl.Diagnose.{is_failure, failures, judge, tracked}

abbrev is_error : Event → Bool
is_error (errored format args) = true
is_error _ = false

-- How often an error was reported.
unfoldable pub errors : Log → ℕ
errors [] = 0
errors (e ∷ log) = (if is_error e then 1 else 0) + errors log

-- At least so many failures and errors.
abbrev pub AtLeast : ℕ → ℕ → Log → Type 0
AtLeast a b log = (a ≤ failures log) × (b ≤ errors log)

-- Just so many failures.
abbrev pub Exactly : ℕ → ℕ → Log → Type 0
Exactly a b log = (failures log ≡ a) × (b ≤ errors log)

pub AtLeast-Adds : (a b : ℕ) (e : Event) → Adds (AtLeast a b) e
unfolding failures errors
AtLeast-Adds a b e = record { add = λ log h. (omega (arith, h.0), omega (arith, h.1)) }

pub Exactly-Adds : (a b : ℕ) (e : Event) → is_failure e ≡ false → Adds (Exactly a b) e
unfolding failures errors
Exactly-Adds a b e quiet = record {
  add = λ log h. (rw quiet (omega (arith, h.0)), omega (arith, h.1));
}

-- It reports what it likes.
pub record Grows {A : Type 0} (m : Run A) : Type 0 where
  pub kept : (a b : ℕ) → Keeps (AtLeast a b) m

-- It reports no failure.
pub record Quiet {A : Type 0} (m : Run A) : Type 0 where
  pub kept : (a b : ℕ) → Keeps (Exactly a b) m

-- With the numbers of failures and errors before: no failure was reported where the run has no error,
-- and a failure or an error was where it has one.
abbrev pub Judged : {A : Type 0} → ℕ → ℕ → Result A × Log → Type 0
Judged a b (ok x, log) = Exactly a b log
Judged a b (err e, log) = AtLeast a b log × (a + b < failures log + errors log)

pub record IsHonest {A : Type 0} (m : Run A) : Type 0 where
  pub run : (a b : ℕ) (log : Log) → Exactly a b log → Judged a b (m log)

module _ {A : Type 0} where
  pub IsHonest-pure : (x : A) → IsHonest (pure x)
  unfolding pure
  IsHonest-pure x = record { run = λ a b log h. h }

  pub IsHonest-report_error :
      (s : String) (args : List String) (e : Error) → IsHonest {A = A} (report_error s args e)
  unfolding report_error emit fail ◌>>=◌ failures errors
  IsHonest-report_error s args e = record {
    run = λ a b log h. ((omega (arith, h.0), omega (arith, h.1)), omega (arith, h.0, h.1));
  }

  pub IsHonest-if :
      (t : Bool) (m k : Run A) → IsHonest m → IsHonest k → IsHonest (if t then m else k)
  IsHonest-if true m k h h' = h
  IsHonest-if false m k h h' = h'

  pub IsHonest-deferring_end : (m : Run A) → IsHonest m → IsHonest (deferring_end m)
  unfolding deferring_end failures errors
  IsHonest-deferring_end m h = record { run = λ a b log p. by_result a b (m log) (h.run a b log p) }
    where
      by_result : (a b : ℕ) (r : Result A × Log) → Judged a b r → Judged a b (end_from r)
      by_result a b (ok x, log) j = (omega (arith, j.0), omega (arith, j.1))
      by_result a b (err e, log) j =
          ((omega (arith, j.0.0), omega (arith, j.0.1)), omega (arith, j.1))

  -- A run that reports no failure, and whose error is reported.
  pub IsHonest-or_report :
      (s : String) (args : List String) (m : Run A) → Quiet m → IsHonest (or_report s args m)
  unfolding or_report on_error pure
  IsHonest-or_report s args m q = record {
    run = λ a b log h. by_result a b (m log) (((q.kept a b).run) log h);
  }
    where
      by_result :
          (a b : ℕ) (r : Result A × Log)
          → Exactly a b r.1
          → Judged a b (case_from r (λ x. pure x) (λ e. report_error s args e))
      by_result a b (ok x, log) h = h
      by_result a b (err e, log) h = (IsHonest-report_error s args e).run a b log h

pub IsHonest-bind :
    {A B : Type 0} (m : Run A) (f : A → Run B)
    → IsHonest m
    → ((x : A) → IsHonest (f x))
    → IsHonest (m >>= f)
unfolding ◌>>=◌
IsHonest-bind {A} {B} m f h k = record {
  run = λ a b log p. by_result a b (m log) (h.run a b log p);
}
  where
    by_result : (a b : ℕ) (r : Result A × Log) → Judged a b r → Judged a b (bind_from r f)
    by_result a b (ok x, log) j = (k x).run a b log j
    by_result a b (err e, log) j = j

pub IsHonest-emit : (e : Event) → is_failure e ≡ false → IsHonest (emit e)
unfolding emit
IsHonest-emit e quiet = record { run = λ a b log h. (Exactly-Adds a b e quiet).add log h }

-- A tracker turns the failures of checks that return nothing into an error.
pub IsHonest-tracked :
    (message : String) (m : Run (Unit {0})) → Grows m → IsHonest (tracked message m)
unfolding tracked
IsHonest-tracked message m g = record {
  run = λ a b log h.
      by_test a b log (m log).1 h
        ((g.kept (failures log) (errors log)).run log (omega arith, omega arith))
        (Bool-cases (ltb (failures log) (failures (m log).1)));
}
  where
    by_test :
        (a b : ℕ) (before after : Log)
        → Exactly a b before
        → AtLeast (failures before) (errors before) after
        → (ltb (failures before) (failures after) ≡ true)
          ⊎ (ltb (failures before) (failures after) ≡ false)
        → Judged a b (judge message before after)
    by_test a b before after h g (inl e) =
        rw e (
          (omega (arith, h.0, g.0), omega (arith, h.1, g.1)),
          ground (arith, h.0, h.1, g.0, g.1, e),
        )
    by_test a b before after h g (inr e) =
        rw e (ground (arith, h.0, g.0, e), omega (arith, h.1, g.1))

-- The error of a tracker leaves the log as it is.
pub Keeps-tracked :
    (Q : Log → Type 0) (message : String) (m : Run (Unit {0}))
    → Keeps Q m
    → Keeps Q (tracked message m)
unfolding tracked
Keeps-tracked Q message m h = record {
  run = λ log q. by_test (ltb (failures log) (failures (m log).1)) (m log).1 (h.run log q);
}
  where
    by_test :
        (t : Bool) (after : Log)
        → Q after
        → Q
            (if◌then◌else◌ {A = Result (Unit {0}) × Log} t
              (err (new_error message), after)
              (ok tt, after)).1
    by_test true after q = q
    by_test false after q = q

-- Two runs of which neither keeps the other from running, and whose errors are joined.
pub IsHonest-both :
    (m k : Run (Unit {0}))
    → IsHonest m
    → Grows k
    → IsHonest k
    → IsHonest (attempt m >>= λ e. attempt k >>= λ f. aggregate (e ∷ (f ∷ [])))
unfolding attempt on_error ◌>>=◌ aggregate pure
IsHonest-both m k h g h' = record { run = λ a b log p. first a b (m log) (h.run a b log p) }
  where
    grown :
        (a b : ℕ) (before : Log) (e : Error) (r : Result (Unit {0}) × Log)
        → AtLeast a b before × (a + b < failures before + errors before)
        → AtLeast (failures before) (errors before) r.1
        → Judged a b (
            bind_from
              (case_from r (λ _ log. (ok none, log)) (λ x log. (ok (some x), log)))
              (λ f log. fail_if (aggregated (some e ∷ (f ∷ []))) log))
    grown a b before e (ok x, log) j l =
        ((omega (arith, j.0.0, l.0), omega (arith, j.0.1, l.1)), omega (arith, j.1, l.0, l.1))
    grown a b before e (err x, log) j l =
        ((omega (arith, j.0.0, l.0), omega (arith, j.0.1, l.1)), omega (arith, j.1, l.0, l.1))

    second :
        (a b : ℕ) (r : Result (Unit {0}) × Log)
        → Judged a b r
        → Judged a b (
            bind_from
              (case_from r (λ _ log. (ok none, log)) (λ x log. (ok (some x), log)))
              (λ f log. fail_if (aggregated (none ∷ (f ∷ []))) log))
    second a b (ok x, log) j = j
    second a b (err e, log) j = j

    first :
        (a b : ℕ) (r : Result (Unit {0}) × Log)
        → Judged a b r
        → Judged a b (
            bind_from
              (case_from r (λ _ log. (ok none, log)) (λ x log. (ok (some x), log)))
              (λ e log.
                bind_from
                  (case_from (k log) (λ _ log'. (ok none, log')) (λ x log'. (ok (some x), log')))
                  (λ f log'. fail_if (aggregated (e ∷ (f ∷ []))) log')))
    first a b (ok x, log) j = second a b (k log) (h'.run a b log j)
    first a b (err e, log) j =
        grown a b log e (k log) j
          ((g.kept (failures log) (errors log)).run log (omega arith, omega arith))
