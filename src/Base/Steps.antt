-- ===== src/Base/Steps.antt =====
-- What is asked of a log: calls that were made and had an answer that the code accepts. A call is
-- answered from the log before it, so its answer can be read off the log again.
use mathlib.Core.Path.{◌≡◌}
use mathlib.Core.Logic.{◌⊎◌, inl, inr}
use mathlib.Core.Bool.{Bool, true, false, not}
use mathlib.Core.List.{List, [], ◌∷◌}
use subctl.Base.Lists.{All}
use subctl.Base.Effect.{Error, Result, ok, err, Event, Log}
use subctl.Base.Keep.{Adds}

-- A call, with the test of the log before it, either of two steps, or one of a family.
pub data Step : Type 1 where
  made : Event → (Log → Bool) → Step
  either : Step → Step → Step
  for_some : {A : Type 0} → (A → Step) → Step

-- The call was made at a log that passes the test.
abbrev pub IsMade : Event → (Log → Bool) → Log → Type 0
IsMade e test [] = ⊥
IsMade e test (x ∷ log) = ((x ≡ e) × (test log ≡ true)) ⊎ IsMade e test log

abbrev pub IsDone : Step → Log → Type 0
IsDone (made e test) log = IsMade e test log
IsDone (either s t) log = IsDone s log ⊎ IsDone t log
IsDone (for_some {A} s) log = (a : A) × IsDone (s a) log

-- All the steps have been done.
abbrev pub Happened : List Step → Log → Type 0
Happened steps log = All (λ s. IsDone s log) steps

-- An answer that is no error, or one that is passed over.
abbrev pub accepts : {A : Type 0} → (Error → Bool) → Result A → Bool
accepts ignored (ok a) = true
accepts ignored (err e) = ignored e

abbrev pub no_error : Error → Bool
no_error e = false

-- The call was answered without an error.
abbrev pub answered : {A : Type 0} → Event → (Log → Result A) → Step
answered e f = made e (λ log. accepts no_error (f log))

-- It was answered without an error, or with one of those.
abbrev pub tolerated : {A : Type 0} → (Error → Bool) → Event → (Log → Result A) → Step
tolerated ignored e f = made e (λ log. accepts ignored (f log))

-- It was answered with an error.
abbrev pub refused : {A : Type 0} → Event → (Log → Result A) → Step
refused e f = made e (λ log. not (accepts no_error (f log)))

pub Adds-IsDone : (s : Step) (e : Event) → Adds (IsDone s) e
Adds-IsDone (made x test) e = record { add = λ log m. inr m }
Adds-IsDone (either s t) e = record {
  add = λ log m. elim m [
    | inl l ↦ inl ((Adds-IsDone s e).add log l)
    | inr r ↦ inr ((Adds-IsDone t e).add log r)
  ];
}
Adds-IsDone (for_some s) e = record { add = λ log m. (m.0, (Adds-IsDone (s m.0) e).add log m.1) }
