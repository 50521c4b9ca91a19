-- ===== src/Uninstall/Gone.antt =====
-- What it means that ensureDeleted of pkg/uninstall/all.go returns no error.
use subctl.Base.{ℕ, zero, suc, ◌≡◌, refl, Bool, true, false, ◌∷◌, subst, if◌then◌else◌, String_eq}
use subctl.Base.Effect.{
  Error, Result, ok, err, Log, pure, fail, ask, is_not_found, is_interrupted, on_error, case_from,
}
use subctl.Base.Ensure.{
  Succeeds, Ensures, Any, Ensures-pure, Ensures-fail, Ensures-bind, Ensures-if, Ensures-on_error,
  Ensures-then,
}
use mathlib.Core.Bool.{false≢true}
use subctl.Uninstall.{
  Api, Object, deletion, poll, try_delete, await_deleted, force_delete, ensure_deleted, timed_out,
}

module _ (api : Api) (obj : Object) where
  -- The last call asked for the deletion, and the API server answered that there is no such object.
  abbrev pub Gone : Log → Type 0
  Gone log =
      (before : Log) × (e : Error) × (log ≡ deletion api obj ∷ before)
      × (api.delete_object obj before ≡ err e)
      × (is_not_found e ≡ true)

  answered_not_found :
      (before : Log) (e : Error) (b : Bool)
      → api.delete_object obj before ≡ err e
      → is_not_found e ≡ b
      → Succeeds
          (λ done log. done ≡ true → Gone log)
          ((if b then pure true else fail e) (deletion api obj ∷ before))
  unfolding pure fail
  answered_not_found before e true q found = λ h. (before, e, refl, q, found)
  answered_not_found before e false q other = tt

  try_delete_answer :
      (before : Log) (r : Result (Unit {0}))
      → api.delete_object obj before ≡ r
      → Succeeds
          (λ done log. done ≡ true → Gone log)
          (case_from
            (r, deletion api obj ∷ before)
            (λ _. pure false)
            (λ e. if is_not_found e then pure true else fail e))
  unfolding pure
  try_delete_answer before (ok _) q = λ h. absurd (false≢true h)
  try_delete_answer before (err e) q = answered_not_found before e (is_not_found e) q refl

  try_delete-Gone : Ensures Any (try_delete api obj) (λ done log. done ≡ true → Gone log)
  unfolding try_delete on_error ask
  try_delete-Gone = record { run = λ log p. try_delete_answer log (api.delete_object obj log) refl }

  poll_after :
      (n : ℕ) (done : Bool)
      → Ensures Any (poll api n (try_delete api obj)) (λ _ log. Gone log)
      → Ensures
          (λ log. done ≡ true → Gone log)
          (elim done [ true ↦ pure tt | false ↦ poll api n (try_delete api obj) ])
          (λ _ log. Gone log)
  poll_after n true rest = Ensures-pure _ _ tt (λ log g. g refl)
  poll_after n false rest = record { run = λ log p. rest.run log tt }

  poll-Gone : (n : ℕ) → Ensures Any (poll api n (try_delete api obj)) (λ _ log. Gone log)
  unfolding poll
  poll-Gone zero = Ensures-fail Any _ timed_out
  poll-Gone (suc n) =
      Ensures-bind Any _ (λ done log. done ≡ true → Gone log) (try_delete api obj) _ try_delete-Gone
        (λ done. poll_after n done (poll-Gone n))

  await_deleted-Gone : Ensures Any (await_deleted api obj) (λ _ log. Gone log)
  unfolding await_deleted
  await_deleted-Gone = poll-Gone api.rounds

  -- Whatever was tried before it, the second wait is the last step of a forced deletion.
  force_delete-Gone : Ensures Any (force_delete api obj) (λ _ log. Gone log)
  unfolding force_delete
  force_delete-Gone =
      Ensures-then Any _ _ _
        λ selector. Ensures-then Any _ _ _ λ _. Ensures-then Any _ _ _ λ _. await_deleted-Gone

  ensure_deleted-Ensures : Ensures Any (ensure_deleted api obj) (λ _ log. Gone log)
  unfolding ensure_deleted
  ensure_deleted-Ensures =
      Ensures-on_error Any _ (λ _ log. Gone log) _ _ _ await_deleted-Gone
        (λ a. Ensures-pure _ _ a (λ log g. g))
        (λ e.
          Ensures-if Any _ (is_interrupted e) _ _ (λ _. force_delete-Gone)
            (λ _. Ensures-fail Any _ e))

  -- Where ensureDeleted returns no error, its last call was a deletion of the object to which the API
  -- server answered that the object does not exist: also after the finalizer was removed by force.
  pub ensure_deleted-Gone :
      (log : Log) {after : Log} → ensure_deleted api obj log ≡ (ok tt, after) → Gone after
  ensure_deleted-Gone log e =
      subst (Succeeds (λ _ end. Gone end)) e (ensure_deleted-Ensures.run log tt)
