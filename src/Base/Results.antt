-- ===== src/Base/Results.antt =====
-- What is known of the results of runs, and of loops: rules for `Ensures` where an answer or a result is
-- known, and where several properties are shown at once.
use mathlib.Core.List.{List, [], ◌∷◌}
use mathlib.Core.Path.{◌≡◌, refl, sym, subst, ◌∙◌}
use Prim.Native.String.{String}
use subctl.Base.Lists.{All}
use subctl.Base.Effect.{
  Error, Result, ok, err, Event, Log, Run, bind_from, ◌>>=◌, ask, case_from, on_error, errored,
  or_report, lift, for_each,
}
use subctl.Base.Keep.{Keeps, Keeps-for_each, Adds, Keeps-or_report, Keeps-lift}
use subctl.Base.Ensure.{
  Succeeds, Ensures, Any, Ensures-pure, Ensures-ask, Ensures-bind, Ensures-or_report,
}

-- A call that is known to succeed with one answer.
module _ {A : Type 0} (e : Event) (f : Log → Result A) (a : A)
    (known : (log : Log) → f log ≡ ok a) where
  pub Ensures-ask_known : Ensures Any (ask e f) (λ b _. b ≡ a)
  Ensures-ask_known = Ensures-ask Any _ e f (λ log b p q. same (sym q ∙ known log))
    where
      same : {b : A} → ok b ≡ ok a → b ≡ a
      same h = cc

  pub Ensures-on_error_known :
      {B : Type 0} (Post : B → Log → Type 0) (k : A → Run B) (g : Error → Run B)
      → Ensures Any (k a) Post
      → Ensures Any (on_error (ask e f) k g) Post
  unfolding on_error ask
  Ensures-on_error_known Post k g h = record {
    run = λ log p.
        subst (λ r. Succeeds Post (case_from (r, e ∷ log) k g)) (sym (known log))
          (h.run (e ∷ log) tt);
  }

-- The same for a call that is known to fail.
pub Ensures-on_error_failing :
    {A B : Type 0} (Post : B → Log → Type 0) (e : Event) (f : Log → Result A) (x : Error)
    (k : A → Run B) (g : Error → Run B)
    → ((log : Log) → f log ≡ err x)
    → Ensures Any (g x) Post
    → Ensures Any (on_error (ask e f) k g) Post
unfolding on_error ask
Ensures-on_error_failing Post e f x k g known h = record {
  run = λ log p.
      subst (λ r. Succeeds Post (case_from (r, e ∷ log) k g)) (sym (known log))
        (h.run (e ∷ log) tt);
}

known_run :
    {A B : Type 0} (Post : B → Log → Type 0) (a b : A) (f : A → Run B)
    → Ensures Any (f a) Post
    → b ≡ a
    → Ensures Any (f b) Post
known_run Post a b f h e = subst (λ c. Ensures Any (f c) Post) (sym e) h

pub Ensures-bind_known :
    {A B : Type 0} (Pre : Log → Type 0) (Post : B → Log → Type 0) (a : A) (m : Run A)
    (f : A → Run B)
    → Ensures Pre m (λ b _. b ≡ a)
    → Ensures Any (f a) Post
    → Ensures Pre (m >>= f) Post
Ensures-bind_known Pre Post a m f h k =
    Ensures-bind Pre Post (λ b _. b ≡ a) m f h
      (λ b. record { run = λ log e. (known_run Post a b f k e).run log tt })

succeeds_map :
    {A : Type 0} (P Q : A → Log → Type 0) (r : Result A × Log)
    → ((a : A) (log : Log) → P a log → Q a log)
    → Succeeds P r
    → Succeeds Q r
succeeds_map P Q (ok a, log) f p = f a log p
succeeds_map P Q (err e, log) f p = tt

pub Ensures-map :
    {A : Type 0} (Pre : Log → Type 0) (P Q : A → Log → Type 0) (m : Run A)
    → ((a : A) (log : Log) → P a log → Q a log)
    → Ensures Pre m P
    → Ensures Pre m Q
Ensures-map Pre P Q m f h = record { run = λ log p. succeeds_map P Q (m log) f (h.run log p) }

succeeds_and :
    {A : Type 0} (P Q : A → Log → Type 0) (r : Result A × Log)
    → Succeeds P r
    → Succeeds Q r
    → Succeeds (λ a log. P a log × Q a log) r
succeeds_and P Q (ok a, log) p q = (p, q)
succeeds_and P Q (err e, log) p q = tt

pub Ensures-and :
    {A : Type 0} (Pre : Log → Type 0) (P Q : A → Log → Type 0) (m : Run A)
    → Ensures Pre m P
    → Ensures Any m Q
    → Ensures Pre m (λ a log. P a log × Q a log)
Ensures-and Pre P Q m h k = record {
  run = λ log p. succeeds_and P Q (m log) (h.run log p) (k.run log tt);
}

-- A check that only computes: what follows it knows what it returned.
lift-succeeds :
    {A : Type 0} (r s : Result A) (log : Log) → s ≡ r → Succeeds (λ a _. s ≡ ok a) (r, log)
lift-succeeds (ok a) s log h = h
lift-succeeds (err e) s log h = tt

pub Ensures-lift : {A : Type 0} (r : Result A) → Ensures Any (lift r) (λ a _. r ≡ ok a)
unfolding lift
Ensures-lift r = record { run = λ log p. lift-succeeds r r log refl }

-- A run whose result is known goes on with that result alone.
module _ {A B : Type 0} (Q : Log → Type 0) (R : A → Type 0) where
  bind_from-keeps_yields :
      (r : Result A × Log) (f : A → Run B)
      → Q r.1
      → Succeeds (λ a _. R a) r
      → ((a : A) → R a → Keeps Q (f a))
      → Q (bind_from r f).1
  bind_from-keeps_yields (ok a, log) f q s k = (k a s).run log q
  bind_from-keeps_yields (err e, log) f q s k = q

  pub Keeps-bind_yields :
      (m : Run A) (f : A → Run B)
      → Keeps Q m
      → Ensures Any m (λ a _. R a)
      → ((a : A) → R a → Keeps Q (f a))
      → Keeps Q (m >>= f)
  unfolding ◌>>=◌
  Keeps-bind_yields m f h y k = record {
    run = λ log q. bind_from-keeps_yields (m log) f (h.run log q) (y.run log tt) k;
  }

-- A loop that ends without an error has done what its body does for each element.
module _ {A : Type 0} (Done : A → Log → Type 0) (body : A → Run (Unit {0})) where
  pub Ensures-for_each :
      (Wanted : A → Type 0)
      → ((x : A) → Wanted x → Ensures Any (body x) (λ _ log. Done x log))
      → ((x y : A) → Keeps (Done x) (body y))
      → (xs : List A)
      → Ensures Any (for_each body xs) (λ _ log. All (λ x. Wanted x → Done x log) xs)
  unfolding for_each
  Ensures-for_each Wanted h k [] = Ensures-pure Any _ tt (λ log p. tt)
  Ensures-for_each Wanted h k (x ∷ xs) = record {
    run = λ log p.
        let rest = Ensures-for_each Wanted h k xs in
        both (body x log) (λ w. (h x w).run log tt)
          (λ log' m. (Keeps-for_each (Done x) body xs (k x)).run log' m) rest;
  }
    where
      both_after :
          (r : Result (Unit {0}) × Log)
          → (Wanted x → Done x r.1)
          → Succeeds (λ _ log. All (λ y. Wanted y → Done y log) xs) r
          → Succeeds (λ _ log. All (λ y. Wanted y → Done y log) (x ∷ xs)) r
      both_after (ok _, log) m s = (m, s)
      both_after (err _, log) m s = tt

      both :
          (r : Result (Unit {0}) × Log)
          → (Wanted x → Succeeds (λ _ log. Done x log) r)
          → ((log : Log) → Done x log → Done x (for_each body xs log).1)
          → Ensures Any (for_each body xs) (λ _ log. All (λ y. Wanted y → Done y log) xs)
          → Succeeds
              (λ _ log. All (λ y. Wanted y → Done y log) (x ∷ xs))
              (bind_from r (λ _. for_each body xs))
      both (ok a, log) m keep rest =
          both_after (for_each body xs log) (λ w. keep log (m w)) (rest.run log tt)
      both (err e, log) m keep rest = tt

-- A check whose error is reported ends the run.
pub Keeps-check :
    {A B : Type 0} (Q : Log → Type 0) (s : String) (args : List String) (r : Result A)
    (f : A → Run B)
    → Adds Q (errored s args)
    → ((a : A) → r ≡ ok a → Keeps Q (f a))
    → Keeps Q (or_report s args (lift r) >>= f)
Keeps-check Q s args r f h k =
    Keeps-bind_yields Q (λ a. r ≡ ok a) (or_report s args (lift r)) f
      (Keeps-or_report Q s args _ h (Keeps-lift Q r))
      (Ensures-or_report Any _ s args _ (Ensures-lift r)) k
