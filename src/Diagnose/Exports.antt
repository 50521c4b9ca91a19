-- ===== src/Diagnose/Exports.antt =====
-- pkg/diagnose/servicediscovery.go: every exported service has what makes it reachable.
use subctl.Base.{
  String, String_eq, ◌==◌, Bool, true, false, ◌&&◌, ◌||◌, List, [], ◌∷◌, none, some, if◌then◌else◌,
}
use subctl.Base.Dict.{Dict, lookup}
use subctl.Base.Effect.{
  Result, ok, err, Log, Run, ask, emit, pure, ◌>>=◌, ◌>>◌, on_error, deferring_end, is_not_found,
  started, warned, call, get, list, service, service_export, service_import, endpoint_slice,
}
use subctl.Operator.{operator_namespace}
use subctl.Diagnose.{tracked, failure}

-- The type of a condition, and its status: "True", "False" or "Unknown".
pub data ConditionStatus : Type 0 where
  status_true status_false status_unknown : ConditionStatus

pub record Condition : Type 0 where
  pub condition_type : String
  pub status : ConditionStatus

pub record ServiceExport : Type 0 where
  pub export_namespace : String
  pub export_name : String
  pub conditions : List Condition

-- Each item is read by the converter. `get_import` answers the labels of a ServiceImport.
pub record ExportsApi : Type 0 where
  -- lhconstants.ServiceExportReady, the types of mcsv1a1, and its label of a service's name.
  pub ready : String
  pub valid : String
  pub conflict_type : String
  pub service_label : String
  pub list_exports : Log → Result (List (Result ServiceExport))
  pub get_exported_service : String → String → Log → Result (Unit {0})
  pub list_endpoint_slices : String → String → String → Log → Result (List String)
  pub get_import : String → String → Log → Result (Dict String String)
  -- The name "%s-%s-%s" of the local import, of the name, the namespace and the cluster ID.
  pub import_name : String → String → String → String

abbrev pub status_eq : ConditionStatus → ConditionStatus → Bool
status_eq status_true status_true = true
status_eq status_false status_false = true
status_eq status_unknown status_unknown = true
status_eq status_true status_false = false
status_eq status_true status_unknown = false
status_eq status_false status_true = false
status_eq status_false status_unknown = false
status_eq status_unknown status_true = false
status_eq status_unknown status_false = false

abbrev pub is_of_type : String → String → Condition → Bool
is_of_type ready type c =
    c.condition_type == type || (type == ready && c.condition_type == "Synced")

-- The first condition of the type decides.
unfoldable pub verify_conditions :
    String → ServiceExport → List Condition → String → ConditionStatus → Run (Unit {0})
verify_conditions ready se [] type expected =
    if status_eq expected status_true
    then failure "The ServiceExport for %s/%s is missing the %q status condition type"
        (se.export_namespace ∷ (se.export_name ∷ (type ∷ [])))
    else pure tt
verify_conditions ready se (c ∷ cs) type expected =
    let rest = verify_conditions ready se cs type expected in
    if is_of_type ready type c
    then (if status_eq c.status expected
        then pure tt
        else failure
            "The ServiceExport %q status condition type for %s/%s is not satisfied. Expected condition status %q. Actual:\n%s"
            (c.condition_type ∷ (se.export_namespace ∷ (se.export_name ∷ []))))
    else rest

module _ (api : ExportsApi) (cluster_id : String) where
  unfoldable pub verify_status_condition : ServiceExport → String → ConditionStatus → Run (Unit {0})
  verify_status_condition se type expected =
      verify_conditions api.ready se se.conditions type expected

  abbrev pub check_slices : ServiceExport → List String → Run (Unit {0})
  check_slices se [] =
      failure "No EndpointSlice found for exported service %s/%s"
        (se.export_namespace ∷ (se.export_name ∷ []))
  check_slices se (s ∷ ss) = pure tt

  -- Whether the local import has the label.
  abbrev pub has_service_label : Dict String String → Bool
  has_service_label labels = elim (lookup api.service_label labels) [ none ↦ false | some _ ↦ true ]

  unfoldable pub check_local_import : ServiceExport → Run Bool
  check_local_import se =
      on_error
        (ask
          (call get service_import operator_namespace
            (api.import_name se.export_name se.export_namespace cluster_id))
          (api.get_import operator_namespace
            (api.import_name se.export_name se.export_namespace cluster_id)))
        (λ labels. pure (has_service_label labels))
        (λ e.
          (if is_not_found e
            then failure "No local ServiceImport in %q found for exported service %s/%s"
                (operator_namespace ∷ (se.export_namespace ∷ (se.export_name ∷ [])))
            else failure "Error retrieving ServiceImport for exported service %s/%s: %v"
                (se.export_namespace ∷ (se.export_name ∷ [])))
          >> pure false)

  unfoldable pub check_aggregate_import : ServiceExport → Run (Unit {0})
  check_aggregate_import se =
      on_error
        (ask (call get service_import se.export_namespace se.export_name)
          (api.get_import se.export_namespace se.export_name))
        (λ _. pure tt)
        (λ e.
          if is_not_found e
          then failure "No ServiceImport found for exported service %s/%s"
              (se.export_namespace ∷ (se.export_name ∷ []))
          else failure "Error retrieving ServiceImport for exported service %s/%s: %v"
              (se.export_namespace ∷ (se.export_name ∷ [])))

  unfoldable pub check_imports : ServiceExport → Run (Unit {0})
  check_imports se = check_local_import se >>= λ aggregate.
      if aggregate then check_aggregate_import se else pure tt

  -- The body of the loop for an export whose service is there: false where the loop is left, which it is
  -- when the endpoint slices cannot be listed.
  unfoldable pub check_exported : ServiceExport → Run Bool
  check_exported se = verify_status_condition se api.valid status_true >>= λ _.
      verify_status_condition se api.ready status_true >>= λ _.
      verify_status_condition se api.conflict_type status_false >>= λ _.
      on_error
        (ask (call list endpoint_slice se.export_namespace se.export_name)
          (api.list_endpoint_slices se.export_namespace se.export_name cluster_id))
        (λ slices. check_slices se slices >>= λ _. check_imports se >> pure true)
        (λ e.
          failure "Error retrieving EndPointSlice for exported service %s/%s: %v"
            (se.export_namespace ∷ (se.export_name ∷ []))
          >> pure false)

  unfoldable pub check_one : Result ServiceExport → Run Bool
  check_one (err e) = failure "Error converting ServiceExport: %v" [] >> pure true
  check_one (ok se) =
      on_error
        (ask (call get service se.export_namespace se.export_name)
          (api.get_exported_service se.export_namespace se.export_name))
        (λ _. check_exported se)
        (λ e.
          if is_not_found e
          then (emit (
                warned "Exported Service %s/%s not found"
                  (se.export_namespace ∷ (se.export_name ∷ [])))
              >>= λ _. verify_status_condition se api.valid status_false >> pure true)
          else failure "Error retrieving Service %s/%s: %v"
              (se.export_namespace ∷ (se.export_name ∷ []))
            >> pure true)

  unfoldable pub check_all : List (Result ServiceExport) → Run (Unit {0})
  check_all [] = pure tt
  check_all (x ∷ xs) = check_one x >>= λ goes_on. if goes_on then check_all xs else pure tt

  unfoldable pub check_service_export : Run (Unit {0})
  check_service_export =
      on_error (ask (call list service_export "" "") api.list_exports) check_all
        (λ e. failure "Error listing ServiceExport resources: %v" [])

  unfoldable pub service_discovery : Run (Unit {0})
  service_discovery =
      emit (started "Checking that services have been exported properly" []) >>= λ _.
      deferring_end (tracked "failures while diagnosing service discovery" check_service_export)
