-- ===== src/Verify.antt =====
-- cmd/subctl/verify.go: which verifications "subctl verify" performs. The labels of the test suites are
-- those of other modules, and strings.ToLower and the prompt are parameters.
pub mod Permitted
pub mod Tests
use subctl.Base.{
  ℕ, String, Text, Text_eq, codes, ◌==◌, Bool, true, false, not, ◌&&◌, ◌||◌, ltb, nat_eq, List, [],
  ◌∷◌, ◌++◌, Option, none, some, if◌then◌else◌,
}
use mathlib.Core.List.{reverse}
use subctl.Base.Dict.{Dict, lookup}
use subctl.Base.Effect.{Error, Result, ok, err, new_error}
use subctl.Cluster.Id.{is_empty}
use subctl.Deploy.{split}

pub record TestLabels : Type 0 where
  pub dataplane : Text
  pub basic : Text
  pub discovery : Text
  pub compliance : Text
  pub redundancy : Text

unfoldable pub verify_e2e_spec_labels : TestLabels → Dict Text Text
verify_e2e_spec_labels t =
    (codes "connectivity", t.dataplane ++ codes "&&!globalnet")
    ∷ ((
      t.basic ++ codes "-connectivity",
      t.dataplane ++ (codes "&&" ++ (t.basic ++ codes "&&!globalnet")),
    )
        ∷ ((codes "service-discovery", t.discovery) ∷ ((codes "compliance", t.compliance) ∷ [])))

unfoldable pub verify_e2e_disruptive_spec_labels : TestLabels → Dict Text Text
verify_e2e_disruptive_spec_labels t = (codes "gateway-failover", t.redundancy) ∷ []

pub data VerificationType : Type 0 where
  disruptive_verification normal_verification unknown_verification : VerificationType

abbrev pub type_of : Option Text → Option Text → VerificationType × Text
type_of (some pattern) d = (normal_verification, pattern)
type_of none (some pattern) = (disruptive_verification, pattern)
type_of none none = (unknown_verification, [])

unfoldable pub get_verify_spec_label : TestLabels → Text → VerificationType × Text
get_verify_spec_label t key =
    type_of (lookup key (verify_e2e_spec_labels t))
      (lookup key (verify_e2e_disruptive_spec_labels t))

unfoldable pub trim_left : ℕ → Text → Text
trim_left c [] = []
trim_left c (d ∷ s) = let rest = trim_left c s in if nat_eq d c then rest else d ∷ s

-- strings.Trim of one character.
unfoldable pub trim : ℕ → Text → Text
trim c s = reverse (trim_left c (reverse (trim_left c s)))

-- The verifications of the list that the flag gives.
unfoldable pub requested : (Text → Text) → List Text → List Text
requested to_lower [] = []
requested to_lower (v ∷ vs) = trim b' ' (to_lower v) ∷ requested to_lower vs

abbrev pub unknown_error : Error
unknown_error = new_error "unknown verification %q"

abbrev pub prepend : Text → Text → Result (List Text × List Text) → Result (List Text × List Text)
prepend label v (err e) = err e
prepend label v (ok (labels, verifications)) = ok (label ∷ labels, v ∷ verifications)

-- The loop: the labels and the verifications. It stops at the first unknown one.
unfoldable pub collect : TestLabels → Bool → List Text → Result (List Text × List Text)
collect t include [] = ok ([], [])
collect t include (v ∷ vs) =
    let rest = collect t include vs in
    let found = get_verify_spec_label t v in
    elim found.0 [
      | unknown_verification ↦ err unknown_error
      | normal_verification ↦ prepend found.1 v rest
      | disruptive_verification ↦ if include then prepend found.1 v rest else rest
    ]

abbrev pub at_least_one : Result (List Text × List Text) → Result (List Text × List Text)
at_least_one (err e) = err e
at_least_one (ok ([], vs)) =
    err (new_error "please specify at least one verification to be performed")
at_least_one (ok (l ∷ ls, vs)) = ok (l ∷ ls, vs)

module _ (t : TestLabels) (to_lower : Text → Text) where
  unfoldable pub get_verify_spec_labels : Text → Bool → Result (List Text × List Text)
  get_verify_spec_labels csv include =
      at_least_one (collect t include (requested to_lower (split b',' csv)))

  abbrev pub keep_if_some : Text → Option Text → List Text → List Text
  keep_if_some v none vs = vs
  keep_if_some v (some _) vs = v ∷ vs

  unfoldable pub disruptive_of : List Text → List Text
  disruptive_of [] = []
  disruptive_of (v ∷ vs) =
      keep_if_some v (lookup v (verify_e2e_disruptive_spec_labels t)) (disruptive_of vs)

  unfoldable pub extract_disruptive_verifications : Text → List Text
  extract_disruptive_verifications csv = disruptive_of (requested to_lower (split b',' csv))

  -- `answer` is what the prompt writes into the flag, or its error.
  abbrev pub allowed : Bool → List Text → Result Bool → (Error → Bool) → Result Bool
  allowed true vs answer is_non_interactive = ok true
  allowed false [] answer is_non_interactive = ok false
  allowed false (v ∷ vs) (ok given) is_non_interactive = ok given
  allowed false (v ∷ vs) (err e) is_non_interactive =
      if is_non_interactive e then ok false else err e

  abbrev pub labels_for : Text → Result Bool → Result (List Text × List Text)
  labels_for csv (err e) = err e
  labels_for csv (ok include) = get_verify_spec_labels csv include

  -- determineSpecLabelsToVerify, where an error ends the program.
  unfoldable pub determine_spec_labels_to_verify :
      Text → Bool → Result Bool → (Error → Bool) → Result (List Text × List Text)
  determine_spec_labels_to_verify csv disruptive_tests answer is_non_interactive =
      labels_for csv
        (allowed disruptive_tests (extract_disruptive_verifications csv) answer is_non_interactive)

  -- checkVerifyArguments, with the checks of the image overrides and of further arguments.
  unfoldable pub check_verify_arguments :
      ℕ → ℕ → Text → Result (Unit {0}) → Result (Unit {0}) → Result (Unit {0})
  check_verify_arguments attempts timeout verify_only overrides no_arguments =
      if ltb attempts 1
      then err (new_error "--connection-attempts must be >=1")
      else if ltb timeout 20
      then err (new_error "--connection-timeout must be >=20")
      else elim (get_verify_spec_labels verify_only true) [
        | err e ↦ err e
        | ok _ ↦ elim overrides [ err e ↦ err e | ok _ ↦ no_arguments ]
      ]
