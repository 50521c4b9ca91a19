-- ===== src/Verify/Permitted.antt =====
-- cmd/subctl/verify.go: disruptive verifications are performed only with permission.
use subctl.Base.{
  Text, Text_eq, ◌≡◌, ◌≢◌, refl, sym, ap, subst, ◌∙◌, ◌⊎◌, inl, inr, Bool, true, false, List, [],
  ◌∷◌, Elem, map, if◌then◌else◌,
}
use subctl.Base.Effect.{Error, Result, ok, err}
use subctl.Deploy.{split}
use subctl.Verify.{
  TestLabels, VerificationType, disruptive_verification, normal_verification, unknown_verification,
  get_verify_spec_label, requested, prepend, collect, at_least_one, get_verify_spec_labels, allowed,
  labels_for, extract_disruptive_verifications, determine_spec_labels_to_verify,
}

abbrev type_of_key : TestLabels → Text → VerificationType
type_of_key t v = (get_verify_spec_label t v).0

-- The label that the verification runs the test suites with.
abbrev pub label_of : TestLabels → Text → Text
label_of t v = (get_verify_spec_label t v).1

-- The verifications are of the items, every normal one of the items is among them, no item is unknown,
-- and a disruptive one is among them only if `permitted`.
pub record IsSelection (t : TestLabels) (permitted : Type 0) (items vs : List Text) : Type 0 where
  pub of_items : (v : Text) → Elem v vs → Elem v items
  pub complete :
      (v : Text) → Elem v items → (get_verify_spec_label t v).0 ≡ normal_verification → Elem v vs
  pub known : (v : Text) → Elem v items → (get_verify_spec_label t v).0 ≢ unknown_verification
  pub unless_permitted :
      (v : Text) → Elem v vs → (get_verify_spec_label t v).0 ≡ disruptive_verification → permitted

module _ (t : TestLabels) (permitted : Type 0) where
  with_item :
      (v : Text) (items vs : List Text)
      → type_of_key t v ≢ unknown_verification
      → (type_of_key t v ≡ disruptive_verification → permitted)
      → IsSelection t permitted items vs
      → IsSelection t permitted (v ∷ items) (v ∷ vs)
  with_item v items vs known given h = record {
    of_items = λ w m. elim m [ inl same ↦ inl same | inr l ↦ inr (h.of_items w l) ];
    complete = λ w m n. elim m [ inl same ↦ inl same | inr l ↦ inr (h.complete w l n) ];
    known = λ w m. elim m [
      | inl same ↦ subst (λ x. type_of_key t x ≢ unknown_verification) (sym same) known
      | inr l ↦ h.known w l
    ];
    unless_permitted = λ w m d. elim m [
      | inl same ↦ given (subst (λ x. type_of_key t x ≡ disruptive_verification) same d)
      | inr l ↦ h.unless_permitted w l d
    ];
  }

  without_item :
      (v : Text) (items vs : List Text)
      → type_of_key t v ≡ disruptive_verification
      → IsSelection t permitted items vs
      → IsSelection t permitted (v ∷ items) vs
  without_item v items vs disruptive h = record {
    of_items = λ w m. inr (h.of_items w m);
    complete = λ w m n. elim m [
      | inl same ↦ absurd (sym disruptive ∙ (ap (type_of_key t) (sym same) ∙ n))
      | inr l ↦ h.complete w l n
    ];
    known = λ w m. elim m [
      | inl same ↦ λ u. absurd_unknown (sym disruptive ∙ (ap (type_of_key t) (sym same) ∙ u))
      | inr l ↦ h.known w l
    ];
    unless_permitted = h.unless_permitted;
  }
    where
      absurd : {A : Type 0} → disruptive_verification ≡ normal_verification → A
      absurd e = cc

      absurd_unknown : disruptive_verification ≡ unknown_verification → ⊥
      absurd_unknown e = cc

  Selects : List Text → Result (List Text × List Text) → Type 0
  Selects items (err e) = Unit {0}
  Selects items (ok r) = IsSelection t permitted items r.1 × (r.0 ≡ map (label_of t) r.1)

  prepend-Selects :
      (v : Text) (items : List Text) (r : Result (List Text × List Text))
      → type_of_key t v ≢ unknown_verification
      → (type_of_key t v ≡ disruptive_verification → permitted)
      → Selects items r
      → Selects (v ∷ items) (prepend (label_of t v) v r)
  unfolding Selects
  prepend-Selects v items (err e) known given h = tt
  prepend-Selects v items (ok (ls, vs)) known given h =
      (with_item v items vs known given h.0, ap (λ l. label_of t v ∷ l) h.1)

  skip-Selects :
      (v : Text) (items : List Text) (r : Result (List Text × List Text))
      → type_of_key t v ≡ disruptive_verification
      → Selects items r
      → Selects (v ∷ items) r
  unfolding Selects
  skip-Selects v items (err e) d h = tt
  skip-Selects v items (ok (ls, vs)) d h = (without_item v items vs d h.0, h.1)

  collect-Selects :
      (include : Bool) (items : List Text)
      → (include ≡ true → permitted)
      → Selects items (collect t include items)
  unfolding collect Selects
  collect-Selects include [] given = (
    record {
      of_items = λ v m. m;
      complete = λ v m n. m;
      known = λ v m. elim m [ ];
      unless_permitted = λ v m d. elim m [ ];
    },
    refl,
  )
  collect-Selects include (v ∷ vs) given =
      by_type (get_verify_spec_label t v).0 refl include given (collect-Selects include vs given)
    where
      by_type :
          (k : VerificationType)
          → type_of_key t v ≡ k
          → (i : Bool) → (i ≡ true → permitted)
          → Selects vs (collect t include vs)
          → Selects (v ∷ vs) (elim k [
            | unknown_verification ↦ err subctl.Verify.unknown_error
            | normal_verification ↦ prepend (get_verify_spec_label t v).1 v (collect t include vs)
            | disruptive_verification ↦
                if i
                then prepend (get_verify_spec_label t v).1 v (collect t include vs)
                else collect t include vs
          ])
      by_type unknown_verification e i g rest = tt
      by_type normal_verification e i g rest =
          prepend-Selects v vs (collect t include vs) (λ u. apart (sym e ∙ u))
            (λ d. apart' (sym e ∙ d)) rest
        where
          apart : normal_verification ≡ unknown_verification → ⊥
          apart h = cc

          apart' : {A : Type 0} → normal_verification ≡ disruptive_verification → A
          apart' h = cc
      by_type disruptive_verification e true g rest =
          prepend-Selects v vs (collect t include vs) (λ u. apart (sym e ∙ u)) (λ d. g refl) rest
        where
          apart : disruptive_verification ≡ unknown_verification → ⊥
          apart h = cc
      by_type disruptive_verification e false g rest =
          skip-Selects v vs (collect t include vs) e rest

-- The flag, or the answer to the prompt.
abbrev pub IsPermitted : Bool → Result Bool → Type 0
IsPermitted flag answer = (flag ≡ true) ⊎ (answer ≡ ok true)

module _ (t : TestLabels) (to_lower : Text → Text) where
  allowed-IsPermitted :
      (flag : Bool) (vs : List Text) (answer : Result Bool) (is_non_interactive : Error → Bool)
      → allowed t to_lower flag vs answer is_non_interactive ≡ ok true
      → IsPermitted flag answer
  allowed-IsPermitted true vs answer i h = inl refl
  allowed-IsPermitted false [] answer i h = cc
  allowed-IsPermitted false (v ∷ vs) (ok given) i h = inr h
  allowed-IsPermitted false (v ∷ vs) (err e) i h = by_test (i e) h
    where
      by_test : (b : Bool) → (if b then ok false else err e) ≡ ok true → IsPermitted false (err e)
      by_test true k = cc
      by_test false k = cc

  selected :
      (permitted : Type 0) (csv : Text) (include : Bool) (ls vs : List Text)
      → (include ≡ true → permitted)
      → get_verify_spec_labels t to_lower csv include ≡ ok (ls, vs)
      → IsSelection t permitted (requested to_lower (split b',' csv)) vs
        × (ls ≡ map (label_of t) vs)
        × (ls ≢ [])
  unfolding get_verify_spec_labels Selects
  selected permitted csv include ls vs given h =
      by_result (collect t include items) (collect-Selects t permitted include items given) h
    where
      items : List Text
      items = requested to_lower (split b',' csv)

      by_result :
          (r : Result (List Text × List Text))
          → Selects t permitted items r
          → at_least_one r ≡ ok (ls, vs)
          → IsSelection t permitted items vs × (ls ≡ map (label_of t) vs) × (ls ≢ [])
      by_result (err e) s k = cc
      by_result (ok ([], ws)) s k = cc
      by_result (ok (m ∷ ms, ws)) s k =
          let chosen = subst (Selects t permitted items) k s in
          (chosen.0, chosen.1, λ none. filled (ap labels k ∙ none))
        where
          labels : Result (List Text × List Text) → List Text
          labels (ok (a, b)) = a
          labels (err e) = []

          filled : m ∷ ms ≡ [] → ⊥
          filled e = cc

  -- Where "subctl verify" goes on, it chooses at least one verification; each is one of those requested,
  -- all of these are known, and every requested one that is not disruptive is chosen. A disruptive one
  -- is chosen only if the flag was given or the prompt was answered with yes. The labels that the test
  -- suites are run with are those of the chosen verifications, in their order, and no others.
  pub determine_spec_labels_to_verify-IsSelection :
      (csv : Text) (flag : Bool) (answer : Result Bool) (is_non_interactive : Error → Bool)
      {ls vs : List Text}
      → determine_spec_labels_to_verify t to_lower csv flag answer is_non_interactive ≡ ok (ls, vs)
      → IsSelection t (IsPermitted flag answer) (requested to_lower (split b',' csv)) vs
        × (ls ≡ map (label_of t) vs)
        × (ls ≢ [])
  unfolding determine_spec_labels_to_verify
  determine_spec_labels_to_verify-IsSelection csv flag answer i {ls} {vs} h =
      by_answer (allowed t to_lower flag (extract_disruptive_verifications t to_lower csv) answer i)
        (allowed-IsPermitted flag (extract_disruptive_verifications t to_lower csv) answer i) h
    where
      by_answer :
          (r : Result Bool)
          → (r ≡ ok true → IsPermitted flag answer)
          → labels_for t to_lower csv r ≡ ok (ls, vs)
          → IsSelection t (IsPermitted flag answer) (requested to_lower (split b',' csv)) vs
            × (ls ≡ map (label_of t) vs)
            × (ls ≢ [])
      by_answer (err e) g k = cc
      by_answer (ok include) g k =
          selected (IsPermitted flag answer) csv include ls vs (λ e. g (ap (λ b. ok b) e)) k
