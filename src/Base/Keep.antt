-- ===== src/Base/Keep.antt =====
-- How runs treat their log. `Keeps Q m`: `m` leaves `Q` true of the log, however it ends.
use mathlib.Core.Logic.{inr}
use mathlib.Core.Path.{◌≡◌, refl}
use mathlib.Core.Bool.{Bool, true, false}
use mathlib.Core.List.{List, [], ◌∷◌}
use Prim.Native.String.{String}
use subctl.Base.Lists.{All, Elem}
use subctl.Base.Tests.{if◌then◌else◌}
use subctl.Base.Effect.{
  Error, Result, ok, err, Event, errored, ended, Log, Run, pure, fail, bind_from, ◌>>=◌, ask, emit,
  case_from, on_error, or_wrap, report_error, or_report, ignore_not_found, ignore_already_exists,
  is_not_found, is_already_exists, lift, end_from, deferring_end, for_each, wrap,
}

pub record Keeps {A : Type 0} (Q : Log → Type 0) (m : Run A) : Type 0 where
  pub run : (log : Log) → Q log → Q (m log).1

-- The event may join a log of which `Q` is true.
pub record Adds (Q : Log → Type 0) (e : Event) : Type 0 where
  pub add : (log : Log) → Q log → Q (e ∷ log)

-- What every event satisfies, and that some event has happened, are the two properties in use.
pub Adds-All : (P : Event → Type 0) (e : Event) → P e → Adds (All P) e
Adds-All P e h = record { add = λ log all. (h, all) }

pub Adds-Elem : (x e : Event) → Adds (Elem x) e
Adds-Elem x e = record { add = λ log m. inr m }

module _ (Q : Log → Type 0) where
  pub Keeps-pure : {A : Type 0} (a : A) → Keeps Q (pure a)
  unfolding pure
  Keeps-pure a = record { run = λ log q. q }

  pub Keeps-fail : (A : Type 0) (e : Error) → Keeps Q (fail {A = A} e)
  unfolding fail
  Keeps-fail A e = record { run = λ log q. q }

  pub Keeps-ask : {A : Type 0} (e : Event) (f : Log → Result A) → Adds Q e → Keeps Q (ask e f)
  unfolding ask
  Keeps-ask e f h = record { run = λ log q. h.add log q }

  pub Keeps-lift : {A : Type 0} (r : Result A) → Keeps Q (lift r)
  unfolding lift
  Keeps-lift r = record { run = λ log q. q }

  pub Keeps-emit : (e : Event) → Adds Q e → Keeps Q (emit e)
  unfolding emit
  Keeps-emit e h = record { run = λ log q. h.add log q }

  bind_from-keeps :
      {A B : Type 0} (r : Result A × Log) (f : A → Run B)
      → Q r.1
      → ((a : A) → Keeps Q (f a))
      → Q (bind_from r f).1
  bind_from-keeps (ok a, log) f q k = (k a).run log q
  bind_from-keeps (err e, log) f q k = q

  pub Keeps-bind :
      {A B : Type 0} (m : Run A) (f : A → Run B)
      → Keeps Q m
      → ((a : A) → Keeps Q (f a))
      → Keeps Q (m >>= f)
  unfolding ◌>>=◌
  Keeps-bind m f h k = record { run = λ log q. bind_from-keeps (m log) f (h.run log q) k }

  case_from-keeps :
      {A B : Type 0} (r : Result A × Log) (f : A → Run B) (g : Error → Run B)
      → Q r.1
      → ((a : A) → Keeps Q (f a))
      → ((e : Error) → Keeps Q (g e))
      → Q (case_from r f g).1
  case_from-keeps (ok a, log) f g q k l = (k a).run log q
  case_from-keeps (err e, log) f g q k l = (l e).run log q

  pub Keeps-on_error :
      {A B : Type 0} (m : Run A) (f : A → Run B) (g : Error → Run B)
      → Keeps Q m
      → ((a : A) → Keeps Q (f a))
      → ((e : Error) → Keeps Q (g e))
      → Keeps Q (on_error m f g)
  unfolding on_error
  Keeps-on_error m f g h k l = record {
    run = λ log q. case_from-keeps (m log) f g (h.run log q) k l;
  }

  pub Keeps-if :
      {A : Type 0} (b : Bool) (m k : Run A) → Keeps Q m → Keeps Q k → Keeps Q (if b then m else k)
  Keeps-if true m k h h' = h
  Keeps-if false m k h h' = h'

  -- Where a branch needs its test.
  pub Keeps-if_known :
      {A : Type 0} (b : Bool) (m k : Run A)
      → (b ≡ true → Keeps Q m)
      → (b ≡ false → Keeps Q k)
      → Keeps Q (if b then m else k)
  Keeps-if_known true m k h h' = h refl
  Keeps-if_known false m k h h' = h' refl

  pub Keeps-or_wrap : {A : Type 0} (s : String) (m : Run A) → Keeps Q m → Keeps Q (or_wrap s m)
  unfolding or_wrap
  Keeps-or_wrap s m h =
      Keeps-on_error m pure (λ e. fail (wrap s e)) h Keeps-pure (λ e. Keeps-fail _ (wrap s e))

  pub Keeps-report_error :
      (A : Type 0) (s : String) (args : List String) (e : Error)
      → Adds Q (errored s args)
      → Keeps Q (report_error {A = A} s args e)
  unfolding report_error
  Keeps-report_error A s args e h =
      Keeps-bind (emit (errored s args)) (λ _. fail (wrap s e)) (Keeps-emit _ h)
        (λ _. Keeps-fail _ (wrap s e))

  pub Keeps-or_report :
      {A : Type 0} (s : String) (args : List String) (m : Run A)
      → Adds Q (errored s args)
      → Keeps Q m
      → Keeps Q (or_report s args m)
  unfolding or_report
  Keeps-or_report s args m a h =
      Keeps-on_error m pure (report_error s args) h Keeps-pure
        (λ e. Keeps-report_error _ s args e a)

  pub Keeps-ignore_not_found : (m : Run (Unit {0})) → Keeps Q m → Keeps Q (ignore_not_found m)
  unfolding ignore_not_found
  Keeps-ignore_not_found m h =
      Keeps-on_error m (λ _. pure tt) (λ e. if is_not_found e then pure tt else fail e) h
        (λ _. Keeps-pure tt)
        (λ e. Keeps-if (is_not_found e) (pure tt) (fail e) (Keeps-pure tt) (Keeps-fail _ e))

  pub Keeps-ignore_already_exists :
      (m : Run (Unit {0})) → Keeps Q m → Keeps Q (ignore_already_exists m)
  unfolding ignore_already_exists
  Keeps-ignore_already_exists m h =
      Keeps-on_error m (λ _. pure tt) (λ e. if is_already_exists e then pure tt else fail e) h
        (λ _. Keeps-pure tt)
        (λ e. Keeps-if (is_already_exists e) (pure tt) (fail e) (Keeps-pure tt) (Keeps-fail _ e))

  end_from-keeps : {A : Type 0} (r : Result A × Log) → Adds Q ended → Q r.1 → Q (end_from r).1
  end_from-keeps (r, log) h q = h.add log q

  pub Keeps-deferring_end :
      {A : Type 0} (m : Run A) → Adds Q ended → Keeps Q m → Keeps Q (deferring_end m)
  unfolding deferring_end
  Keeps-deferring_end m h k = record { run = λ log q. end_from-keeps (m log) h (k.run log q) }

  pub Keeps-for_each :
      {A : Type 0} (body : A → Run (Unit {0})) (xs : List A)
      → ((a : A) → Keeps Q (body a))
      → Keeps Q (for_each body xs)
  unfolding for_each
  Keeps-for_each body [] h = Keeps-pure tt
  Keeps-for_each body (x ∷ xs) h =
      Keeps-bind (body x) (λ _. for_each body xs) (h x) (λ _. Keeps-for_each body xs h)

pub ruleset keeping = (
  Keeps-pure, Keeps-fail, Keeps-ask, Keeps-lift, Keeps-emit, Keeps-bind, Keeps-on_error, Keeps-if,
  Keeps-or_wrap, Keeps-report_error, Keeps-or_report, Keeps-ignore_not_found,
  Keeps-ignore_already_exists, Keeps-deferring_end, Keeps-for_each, Adds-All, Adds-Elem,
)
