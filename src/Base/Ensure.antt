-- ===== src/Base/Ensure.antt =====
-- What a run that succeeds has established: `Ensures Pre m Post`, from any log where `Pre` holds.
use mathlib.Core.Bool.{Bool, true, false}
use mathlib.Core.List.{List, ◌∷◌}
use mathlib.Core.Path.{◌≡◌, refl}
use Prim.Native.String.{String}
use subctl.Base.Tests.{if◌then◌else◌}
use subctl.Base.Effect.{
  Error, Result, ok, err, Event, Log, Run, pure, fail, bind_from, ◌>>=◌, ask, case_from, on_error,
  or_wrap, report_error, or_report, ended, end_from, deferring_end, wrap,
}
use subctl.Base.Keep.{Keeps}

abbrev pub Succeeds : {A : Type 0} → (A → Log → Type 0) → Result A × Log → Type 0
Succeeds Post (ok a, log) = Post a log
Succeeds Post (err e, log) = Unit {0}

pub record Ensures {A : Type 0} (Pre : Log → Type 0) (m : Run A) (Post : A → Log → Type 0)
    : Type 0 where
  pub run : (log : Log) → Pre log → Succeeds Post (m log)

-- Nothing is asked of the log.
abbrev pub Any : Log → Type 0
Any log = Unit {0}

module _ {A : Type 0} (Pre : Log → Type 0) (Post : A → Log → Type 0) where
  pub Ensures-pure : (a : A) → ((log : Log) → Pre log → Post a log) → Ensures Pre (pure a) Post
  unfolding pure
  Ensures-pure a h = record { run = h }

  pub Ensures-fail : (e : Error) → Ensures Pre (fail e) Post
  unfolding fail
  Ensures-fail e = record { run = λ log p. tt }

  pub Ensures-report_error :
      (s : String) (args : List String) (e : Error) → Ensures Pre (report_error s args e) Post
  unfolding report_error
  Ensures-report_error s args e = record { run = λ log p. tt }

  ask-succeeds :
      (e : Event) (r : Result A) (log : Log)
      → ((a : A) → r ≡ ok a → Post a (e ∷ log))
      → Succeeds Post (r, e ∷ log)
  ask-succeeds e (ok a) log h = h a refl
  ask-succeeds e (err _) log h = tt

  pub Ensures-ask :
      (e : Event) (f : Log → Result A)
      → ((log : Log) (a : A) → Pre log → f log ≡ ok a → Post a (e ∷ log))
      → Ensures Pre (ask e f) Post
  unfolding ask
  Ensures-ask e f h = record { run = λ log p. ask-succeeds e (f log) log (λ a q. h log a p q) }

  pub Ensures-if :
      (b : Bool) (m k : Run A)
      → (b ≡ true → Ensures Pre m Post)
      → (b ≡ false → Ensures Pre k Post)
      → Ensures Pre (if b then m else k) Post
  Ensures-if true m k h h' = h refl
  Ensures-if false m k h h' = h' refl

  end_from-succeeds :
      (r : Result A × Log)
      → ((a : A) (log : Log) → Post a log → Post a (ended ∷ log))
      → Succeeds Post r
      → Succeeds Post (end_from r)
  end_from-succeeds (ok a, log) h s = h a log s
  end_from-succeeds (err e, log) h s = tt

  pub Ensures-deferring_end :
      (m : Run A)
      → ((a : A) (log : Log) → Post a log → Post a (ended ∷ log))
      → Ensures Pre m Post
      → Ensures Pre (deferring_end m) Post
  unfolding deferring_end
  Ensures-deferring_end m h k = record { run = λ log p. end_from-succeeds (m log) h (k.run log p) }

  -- A run that only keeps the log's property, and whose result is not looked at.
  keeps-succeeds :
      (r : Result A × Log)
      → ((a : A) (log : Log) → Pre log → Post a log)
      → Pre r.1
      → Succeeds Post r
  keeps-succeeds (ok a, log) h q = h a log q
  keeps-succeeds (err e, log) h q = tt

  pub Ensures_of_Keeps :
      (m : Run A) → ((a : A) (log : Log) → Pre log → Post a log) → Keeps Pre m → Ensures Pre m Post
  Ensures_of_Keeps m h k = record { run = λ log p. keeps-succeeds (m log) h (k.run log p) }

module _ {A B : Type 0} (Pre : Log → Type 0) (Post : B → Log → Type 0) where
  bind_from-succeeds :
      (Mid : A → Log → Type 0) (r : Result A × Log) (f : A → Run B)
      → Succeeds Mid r
      → ((a : A) → Ensures (Mid a) (f a) Post)
      → Succeeds Post (bind_from r f)
  bind_from-succeeds Mid (ok a, log) f s k = (k a).run log s
  bind_from-succeeds Mid (err e, log) f s k = tt

  pub Ensures-bind :
      (Mid : A → Log → Type 0) (m : Run A) (f : A → Run B)
      → Ensures Pre m Mid
      → ((a : A) → Ensures (Mid a) (f a) Post)
      → Ensures Pre (m >>= f) Post
  unfolding ◌>>=◌
  Ensures-bind Mid m f h k = record {
    run = λ log p. bind_from-succeeds Mid (m log) f (h.run log p) k;
  }

  case_from-succeeds :
      (Mid : A → Log → Type 0) (r : Result A × Log) (f : A → Run B) (g : Error → Run B)
      → Succeeds Mid r
      → ((a : A) → Ensures (Mid a) (f a) Post)
      → ((e : Error) → Ensures Any (g e) Post)
      → Succeeds Post (case_from r f g)
  case_from-succeeds Mid (ok a, log) f g s k l = (k a).run log s
  case_from-succeeds Mid (err e, log) f g s k l = (l e).run log tt

  -- The error branch starts from a log of which nothing is known.
  pub Ensures-on_error :
      (Mid : A → Log → Type 0) (m : Run A) (f : A → Run B) (g : Error → Run B)
      → Ensures Pre m Mid
      → ((a : A) → Ensures (Mid a) (f a) Post)
      → ((e : Error) → Ensures Any (g e) Post)
      → Ensures Pre (on_error m f g) Post
  unfolding on_error
  Ensures-on_error Mid m f g h k l = record {
    run = λ log p. case_from-succeeds Mid (m log) f g (h.run log p) k l;
  }

succeeds_any : {A : Type 0} (r : Result A × Log) → Succeeds (λ _ _. Unit {0}) r
succeeds_any (ok a, log) = tt
succeeds_any (err e, log) = tt

-- Where only the end of a run matters, nothing is asked of what comes before it.
pub Ensures-then :
    {A B : Type 0} (Pre : Log → Type 0) (Post : B → Log → Type 0) (m : Run A) (f : A → Run B)
    → ((a : A) → Ensures Any (f a) Post)
    → Ensures Pre (m >>= f) Post
Ensures-then Pre Post m f k =
    Ensures-bind Pre Post (λ _ _. Unit {0}) m f (record { run = λ log p. succeeds_any (m log) }) k

-- The same for both branches after a call.
pub Ensures-on_error_then :
    {A B : Type 0} (Pre : Log → Type 0) (Post : B → Log → Type 0) (m : Run A) (f : A → Run B)
    (g : Error → Run B)
    → ((a : A) → Ensures Any (f a) Post)
    → ((e : Error) → Ensures Any (g e) Post)
    → Ensures Pre (on_error m f g) Post
Ensures-on_error_then Pre Post m f g =
    Ensures-on_error Pre Post (λ _ _. Unit {0}) m f g
      (record { run = λ log p. succeeds_any (m log) })

module _ {A : Type 0} (Pre : Log → Type 0) (Post : A → Log → Type 0) where
  pub Ensures-or_report :
      (s : String) (args : List String) (m : Run A)
      → Ensures Pre m Post
      → Ensures Pre (or_report s args m) Post
  unfolding or_report
  Ensures-or_report s args m h =
      Ensures-on_error Pre Post Post m pure (report_error s args) h
        (λ a. Ensures-pure (Post a) Post a (λ log p. p))
        (λ e. Ensures-report_error Any Post s args e)

  pub Ensures-or_wrap :
      (s : String) (m : Run A) → Ensures Pre m Post → Ensures Pre (or_wrap s m) Post
  unfolding or_wrap
  Ensures-or_wrap s m h =
      Ensures-on_error Pre Post Post m pure (λ e. fail (wrap s e)) h
        (λ a. Ensures-pure (Post a) Post a (λ log p. p)) (λ e. Ensures-fail Any Post (wrap s e))
