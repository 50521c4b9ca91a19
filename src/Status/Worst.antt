-- ===== src/Status/Worst.antt =====
-- The result of a phase is that of its worst message (internal/cli/status.go).
use subctl.Base.{
  String, ◌≡◌, ◌≢◌, refl, ap, ◌↔◌, inl, inr, Bool, true, false, List, [], ◌∷◌, Elem, if◌then◌else◌,
}
use subctl.Status.{
  ResultType, success, failure, warning, Message, has_failure_messages, has_warning_messages,
  result_from_messages,
}

-- Some message has the kind.
abbrev pub HasKind : ResultType → List Message → Type 0
HasKind k ms = (t : String) × Elem (k, t) ms

has_later :
    (k : ResultType) (m : Message) (ms : List Message) → k ≢ m.0 → HasKind k (m ∷ ms) → HasKind k ms
has_later k m ms ne (t, inl e) = elim (ne (ap (λ x. x.0) e)) [ ]
has_later k m ms ne (t, inr h) = (t, h)

other_kind :
    (P : Type 0) (k : ResultType) (m : Message) (ms : List Message)
    → k ≢ m.0
    → P ↔ HasKind k ms
    → P ↔ HasKind k (m ∷ ms)
other_kind P k m ms ne ih =
    (λ p. let (t, h) = ih.0 p in (t, inr h), λ h. ih.1 (has_later k m ms ne h))

has_failure_messages_iff :
    (ms : List Message) → (has_failure_messages ms ≡ true) ↔ HasKind failure ms
unfolding has_failure_messages
has_failure_messages_iff [] = (λ h. cc, λ h. elim h.1 [ ])
has_failure_messages_iff ((failure, t) ∷ ms) = (λ _. (t, inl refl), λ _. refl)
has_failure_messages_iff ((success, t) ∷ ms) =
    other_kind _ failure (success, t) ms (λ h. cc) (has_failure_messages_iff ms)
has_failure_messages_iff ((warning, t) ∷ ms) =
    other_kind _ failure (warning, t) ms (λ h. cc) (has_failure_messages_iff ms)

has_warning_messages_iff :
    (ms : List Message) → (has_warning_messages ms ≡ true) ↔ HasKind warning ms
unfolding has_warning_messages
has_warning_messages_iff [] = (λ h. cc, λ h. elim h.1 [ ])
has_warning_messages_iff ((warning, t) ∷ ms) = (λ _. (t, inl refl), λ _. refl)
has_warning_messages_iff ((success, t) ∷ ms) =
    other_kind _ warning (success, t) ms (λ h. cc) (has_warning_messages_iff ms)
has_warning_messages_iff ((failure, t) ∷ ms) =
    other_kind _ warning (failure, t) ms (λ h. cc) (has_warning_messages_iff ms)

abbrev worst : Bool → Bool → ResultType
worst a b = if a then failure else if b then warning else success

chosen :
    (a b : Bool) (P Q : Type 0)
    → (a ≡ true) ↔ P
    → (b ≡ true) ↔ Q
    → ((worst a b ≡ failure) ↔ P) × ((worst a b ≡ warning) ↔ ((P → ⊥) × Q))
chosen true b P Q h k = ((λ _. h.0 refl, λ _. refl), (λ e. cc, λ n. elim (n.0 (h.0 refl)) [ ]))
chosen false true P Q h k = (
  (λ e. cc, λ p. contradiction (h.1 p)),
  (λ _. (λ p. contradiction (h.1 p), k.0 refl), λ _. refl),
)
  where
    contradiction : {A : Type 0} → false ≡ true → A
    contradiction e = cc
chosen false false P Q h k =
    ((λ e. cc, λ p. contradiction (h.1 p)), (λ e. cc, λ n. contradiction (k.1 n.1)))
  where
    contradiction : {A : Type 0} → false ≡ true → A
    contradiction e = cc

-- The result with which a phase ends is a failure exactly if one was reported in it, and a warning
-- exactly if one was reported and no failure.
pub result_from_messages-Worst :
    (ms : List Message)
    → ((result_from_messages ms ≡ failure) ↔ HasKind failure ms)
      × ((result_from_messages ms ≡ warning) ↔ ((HasKind failure ms → ⊥) × HasKind warning ms))
unfolding result_from_messages
result_from_messages-Worst ms =
    chosen (has_failure_messages ms) (has_warning_messages ms) _ _ (has_failure_messages_iff ms)
      (has_warning_messages_iff ms)
