-- ===== src/Verify/Tests.antt =====
-- "subctl verify --only connectivity,gateway-failover" where the prompt is answered with no.
use subctl.Base.{Text, Text_eq, text_eq, codes, ◌≡◌, ◌≢◌, refl, false, [], ◌∷◌, map}
use subctl.Base.Dict.{lookup}
use subctl.Base.Effect.{ok}
use subctl.Deploy.{split}
use subctl.Verify.{
  TestLabels, verify_e2e_spec_labels, verify_e2e_disruptive_spec_labels, get_verify_spec_label,
  trim_left, trim, requested, collect, get_verify_spec_labels, disruptive_of,
  extract_disruptive_verifications, determine_spec_labels_to_verify,
}
use subctl.Verify.Permitted.{
  IsSelection, label_of, IsPermitted, determine_spec_labels_to_verify-IsSelection,
}

abbrev test_labels : TestLabels
test_labels = record {
  dataplane = codes "dataplane";
  basic = codes "basic";
  discovery = codes "service-discovery";
  compliance = codes "compliance";
  redundancy = codes "redundancy";
}

abbrev as_given : Text → Text
as_given s = s

abbrev csv : Text
csv = codes "connectivity, gateway-failover"

refused :
    determine_spec_labels_to_verify test_labels as_given csv false (ok false) (λ e. false)
    ≡ ok (codes "dataplane&&!globalnet" ∷ [], codes "connectivity" ∷ [])
unfolding determine_spec_labels_to_verify get_verify_spec_labels extract_disruptive_verifications
    disruptive_of collect get_verify_spec_label verify_e2e_spec_labels
    verify_e2e_disruptive_spec_labels requested trim trim_left split lookup text_eq
refused = refl

determine_spec_labels_to_verify-IsSelection_example :
    IsSelection test_labels
      (IsPermitted false (ok false))
      (requested as_given (split b',' csv))
      (codes "connectivity" ∷ [])
    × (codes "dataplane&&!globalnet" ∷ [] ≡ map (label_of test_labels) (codes "connectivity" ∷ []))
    × (codes "dataplane&&!globalnet" ∷ [] ≢ [])
determine_spec_labels_to_verify-IsSelection_example =
    determine_spec_labels_to_verify-IsSelection test_labels as_given csv false (ok false)
      (λ e. false) refused
