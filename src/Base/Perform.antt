-- ===== src/Base/Perform.antt =====
-- Runs that make certain calls. `Performs es m`: when `m` ends without an error all steps of `es` have
-- been done, and `m` never undoes one.
use mathlib.Core.Path.{◌≡◌, refl, ap, ◌∙◌}
use mathlib.Core.Logic.{◌⊎◌, inl, inr}
use mathlib.Core.Bool.{Bool, true, false}
use mathlib.Core.List.{List, [], ◌∷◌, ◌++◌}
use Prim.Native.String.{String}
use subctl.Base.Lists.{All-append}
use subctl.Base.Tests.{Bool-cases, if◌then◌else◌}
use subctl.Base.Effect.{
  Error, Result, ok, err, Event, Log, Run, pure, fail, bind_from, ◌>>=◌, ask, emit, or_wrap,
  or_report, errored, case_from, on_error, ended, deferring_end,
}
use subctl.Base.Steps.{
  Step, for_some, IsDone, Happened, accepts, no_error, answered, tolerated, Adds-IsDone,
}
use subctl.Base.Keep.{
  Keeps, Keeps-pure, Keeps-fail, Keeps-ask, Keeps-emit, Keeps-or_wrap, Keeps-or_report,
  Keeps-on_error, Keeps-deferring_end,
}
use subctl.Base.Results.{Ensures-map, Keeps-bind_yields}
use subctl.Base.Ensure.{
  Ensures, Any, Succeeds, Ensures-pure, Ensures-fail, Ensures-ask, Ensures-or_wrap,
  Ensures-or_report, Ensures-deferring_end,
}

Happened_later : (es : List Step) (e : Event) (log : Log) → Happened es log → Happened es (e ∷ log)
Happened_later [] e log h = tt
Happened_later (s ∷ es) e log h = ((Adds-IsDone s e).add log h.0, Happened_later es e log h.1)

pub record Performs {A : Type 0} (es : List Step) (m : Run A) : Type 1 where
  pub done : Ensures Any m (λ _. Happened es)
  pub grows : (s : Step) → Keeps (IsDone s) m

module _ {A : Type 0} where
  pub Performs-pure : (a : A) → Performs [] (pure a)
  Performs-pure a = record {
    done = Ensures-pure Any _ a (λ log p. tt);
    grows = λ e. Keeps-pure (IsDone e) a;
  }

  pub Performs-fail : (es : List Step) (e : Error) → Performs {A = A} es (fail e)
  Performs-fail es e = record {
    done = Ensures-fail Any _ e;
    grows = λ x. Keeps-fail (IsDone x) _ e;
  }

  pub Performs-ask : (e : Event) (f : Log → Result A) → Performs (answered e f ∷ []) (ask e f)
  Performs-ask e f = record {
    done = Ensures-ask Any _ e f (λ log a p q. (inl (refl, ap (accepts no_error) q), tt));
    grows = λ x. Keeps-ask (IsDone x) e f (Adds-IsDone x e);
  }

  pub Performs-or_wrap :
      (es : List Step) (s : String) (m : Run A) → Performs es m → Performs es (or_wrap s m)
  Performs-or_wrap es s m h = record {
    done = Ensures-or_wrap Any _ s m h.done;
    grows = λ e. Keeps-or_wrap (IsDone e) s m (h.grows e);
  }

  pub Performs-or_report :
      (es : List Step) (s : String) (args : List String) (m : Run A)
      → Performs es m
      → Performs es (or_report s args m)
  Performs-or_report es s args m h = record {
    done = Ensures-or_report Any _ s args m h.done;
    grows = λ e. Keeps-or_report (IsDone e) s args m (Adds-IsDone e (errored s args)) (h.grows e);
  }

  -- One of a family of steps.
  pub Performs-for_some :
      {I : Type 0} (s : I → Step) (i : I) (m : Run A)
      → Performs (s i ∷ []) m
      → Performs (for_some s ∷ []) m
  Performs-for_some s i m h = record {
    done = record { run = λ log p. by_result (m log) (h.done.run log p) };
    grows = h.grows;
  }
    where
      by_result :
          (r : Result A × Log)
          → Succeeds (λ _. Happened (s i ∷ [])) r
          → Succeeds (λ _. Happened (for_some s ∷ [])) r
      by_result (ok a, log) g = ((i, g.0), tt)
      by_result (err e, log) g = tt

  pub Performs-if :
      (es : List Step) (b : Bool) (m k : Run A)
      → Performs es m
      → Performs es k
      → Performs es (if b then m else k)
  Performs-if es true m k h h' = h
  Performs-if es false m k h h' = h'

  pub Performs-deferring_end :
      (es : List Step) (m : Run A) → Performs es m → Performs es (deferring_end m)
  Performs-deferring_end es m h = record {
    done = Ensures-deferring_end Any _ m (λ a log p. Happened_later es ended log p) h.done;
    grows = λ e. Keeps-deferring_end (IsDone e) m (Adds-IsDone e ended) (h.grows e);
  }

  -- What a run keeps, when nothing is asked of it.
  pub Performs-none : (m : Run A) → ((s : Step) → Keeps (IsDone s) m) → Performs [] m
  Performs-none m h = record { done = record { run = λ log p. nothing (m log) }; grows = h }
    where
      nothing : (r : Result A × Log) → Succeeds (λ _. Happened []) r
      nothing (ok a, log) = tt
      nothing (err e, log) = tt

pub Performs-emit : (e : Event) → Performs [] (emit e)
Performs-emit e = Performs-none (emit e) (λ x. Keeps-emit (IsDone x) e (Adds-IsDone x e))

kept_all :
    (es : List Step) (log log' : Log)
    → ((s : Step) → IsDone s log → IsDone s log')
    → Happened es log
    → Happened es log'
kept_all [] log log' k h = tt
kept_all (e ∷ es) log log' k h = (k e h.0, kept_all es log log' k h.1)

both :
    {B : Type 0} (es fs : List Step) (log : Log) (r : Result B × Log)
    → Happened es log
    → ((s : Step) → IsDone s log → IsDone s r.1)
    → Succeeds (λ _. Happened fs) r
    → Succeeds (λ _. Happened (es ++ fs)) r
both es fs log (ok b, log') h k s = All-append _ es fs (kept_all es log log' k h) s
both es fs log (err e, log') h k s = tt

module _ {A B : Type 0} (es fs : List Step) where
  bind_from-both :
      (R : A → Type 0) (r : Result A × Log) (f : A → Run B)
      → Succeeds (λ _. Happened es) r
      → Succeeds (λ a _. R a) r
      → ((a : A) → R a → Performs fs (f a))
      → Succeeds (λ _. Happened (es ++ fs)) (bind_from r f)
  bind_from-both R (ok a, log) f s y k =
      both es fs log (f a log) s (λ e h. ((k a y).grows e).run log h) ((k a y).done.run log tt)
  bind_from-both R (err e, log) f s y k = tt

  -- What follows knows something of the result.
  pub Performs-bind_yields :
      (R : A → Type 0) (m : Run A) (f : A → Run B)
      → Performs es m
      → Ensures Any m (λ a _. R a)
      → ((a : A) → R a → Performs fs (f a))
      → Performs (es ++ fs) (m >>= f)
  unfolding ◌>>=◌
  Performs-bind_yields R m f h y k = record {
    done = record {
      run = λ log p. bind_from-both R (m log) f (h.done.run log tt) (y.run log tt) k;
    };
    grows = λ e. Keeps-bind_yields (IsDone e) R m f (h.grows e) y (λ a r. (k a r).grows e);
  }

  pub Performs-bind :
      (m : Run A) (f : A → Run B)
      → Performs es m
      → ((a : A) → Performs fs (f a))
      → Performs (es ++ fs) (m >>= f)
  Performs-bind m f h k =
      Performs-bind_yields (λ _. Unit {0}) m f h
        (Ensures-map Any (λ _. Happened es) (λ _ _. Unit {0}) m (λ a log p. tt) h.done) (λ a _. k a)

-- A call of which some errors are passed over.
pub Performs-on_error-ask :
    {A B : Type 0} (ignored : Error → Bool) (e : Event) (f : Log → Result A) (k : A → Run B)
    (g : Error → Run B)
    → ((a : A) → Performs [] (k a))
    → ((x : Error) → ignored x ≡ true → Performs [] (g x))
    → ((x : Error) → ignored x ≡ false → Performs (tolerated ignored e f ∷ []) (g x))
    → Performs (tolerated ignored e f ∷ []) (on_error (ask e f) k g)
unfolding on_error ask
Performs-on_error-ask {A} {B} ignored e f k g hk hg hg' = record {
  done = record { run = λ log p. after log (f log) refl };
  grows = λ s.
      Keeps-on_error (IsDone s) (ask e f) k g (Keeps-ask (IsDone s) e f (Adds-IsDone s e))
        (λ a. (hk a).grows s) (λ x. by_error s x (Bool-cases (ignored x)));
}
  where
    step : Step
    step = tolerated ignored e f

    by_error :
        (s : Step) (x : Error) → (ignored x ≡ true) ⊎ (ignored x ≡ false) → Keeps (IsDone s) (g x)
    by_error s x (inl h) = (hg x h).grows s
    by_error s x (inr h) = (hg' x h).grows s

    first : (r : Result B × Log) → IsDone step r.1 → Succeeds (λ _. Happened (step ∷ [])) r
    first (ok b, log) h = (h, tt)
    first (err x, log) h = tt

    after :
        (log : Log) (r : Result A)
        → f log ≡ r
        → Succeeds (λ _. Happened (step ∷ [])) (case_from (r, e ∷ log) k g)
    after log (ok a) h =
        first (k a (e ∷ log))
          (((hk a).grows step).run (e ∷ log) (inl (refl, ap (accepts ignored) h)))
    after log (err x) h = elim (Bool-cases (ignored x)) [
      | inl i ↦
          first (g x (e ∷ log))
            (((hg x i).grows step).run (e ∷ log) (inl (refl, ap (accepts ignored) h ∙ i)))
      | inr i ↦ (hg' x i).done.run (e ∷ log) tt
    ]
