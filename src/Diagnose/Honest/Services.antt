-- ===== src/Diagnose/Honest/Services.antt =====
-- The checks of exported services and global IPs run under a tracker, and take no report back.
use subctl.Base.{ℕ, String, String_eq, Bool, true, false, List, [], ◌∷◌, Option, none, some}
use subctl.Base.Effect.{Result, ok, err, Event, Run}
use subctl.Base.Keep.{Keeps, keeping, Adds, Keeps-pure, Keeps-emit, Keeps-bind, Keeps-if}
use subctl.Diagnose.Tally.{AtLeast, AtLeast-Adds}
use subctl.Diagnose.Globalnet.{
  GlobalnetApi, GlobalEgressIp, GlobalIngressIp, ServiceInfo, Key, check_condition,
  check_allocation, check_default, check_cluster_global_egress_ips, check_global_egress_ips,
  check_internal, verify_internal_service, check_ingress_condition, check_ingress, check_export,
  check_global_ingress_ips,
}
use subctl.Diagnose.Exports.{
  ExportsApi, ServiceExport, Condition, ConditionStatus, verify_conditions, verify_status_condition,
  check_slices, check_local_import, check_aggregate_import, check_imports, check_exported,
  check_one, check_all, check_service_export,
}

module _ (a b : ℕ) where
  abbrev Kept : {A : Type 0} → Run A → Type 0
  Kept m = Keeps (AtLeast a b) m

  adds : (e : Event) → Adds (AtLeast a b) e
  adds e = AtLeast-Adds a b e

  check_condition-Keeps : (k n : String) (o : Option Bool) → Kept (check_condition k n o)
  check_condition-Keeps k n none = Keeps-emit _ _ (adds _)
  check_condition-Keeps k n (some true) = Keeps-pure _ tt
  check_condition-Keeps k n (some false) = Keeps-emit _ _ (adds _)

  check_allocation-Keeps : (k : String) (g : GlobalEgressIp) → Kept (check_allocation k g)
  unfolding check_allocation
  check_allocation-Keeps k g = search (keeping, adds, check_condition-Keeps) depth 20

  check_default-Keeps : (n : String) (o : Option GlobalEgressIp) → Kept (check_default n o)
  check_default-Keeps n none = Keeps-emit _ _ (adds _)
  check_default-Keeps n (some g) = check_allocation-Keeps _ g

  module _ (api : GlobalnetApi) where
    pub check_cluster_global_egress_ips-Keeps : Kept (check_cluster_global_egress_ips api)
    unfolding check_cluster_global_egress_ips
    check_cluster_global_egress_ips-Keeps = search (keeping, adds, check_default-Keeps) depth 20

    pub check_global_egress_ips-Keeps : Kept (check_global_egress_ips api)
    unfolding check_global_egress_ips
    check_global_egress_ips-Keeps = search (keeping, adds, check_allocation-Keeps) depth 20

    check_internal-Keeps :
        (k : Key) (i : GlobalIngressIp) (ss : List ServiceInfo) → Kept (check_internal api k i ss)
    check_internal-Keeps (ns, n) i [] = Keeps-emit _ _ (adds _)
    check_internal-Keeps (ns, n) i (s ∷ []) =
        Keeps-if _ _ _ _ (Keeps-pure _ tt) (Keeps-emit _ _ (adds _))
    check_internal-Keeps (ns, n) i (s ∷ t ∷ rest) = Keeps-emit _ _ (adds _)

    verify_internal_service-Keeps :
        (k : Key) (i : GlobalIngressIp) → Kept (verify_internal_service api k i)
    unfolding verify_internal_service
    verify_internal_service-Keeps (ns, n) i = search (keeping, adds, check_internal-Keeps) depth 20

    check_ingress_condition-Keeps :
        (k : Key) (i : GlobalIngressIp) (o : Option Bool) → Kept (check_ingress_condition api k i o)
    check_ingress_condition-Keeps k i none = Keeps-emit _ _ (adds _)
    check_ingress_condition-Keeps k i (some false) = Keeps-emit _ _ (adds _)
    check_ingress_condition-Keeps k i (some true) = verify_internal_service-Keeps k i

    check_ingress-Keeps : (k : Key) (i : GlobalIngressIp) → Kept (check_ingress api k i)
    unfolding check_ingress
    check_ingress-Keeps (ns, n) i = search (keeping, adds, check_ingress_condition-Keeps) depth 20

    check_export-Keeps : (k : Key) → Kept (check_export api k)
    unfolding check_export
    check_export-Keeps (ns, n) = search (keeping, adds, check_ingress-Keeps) depth 20

    pub check_global_ingress_ips-Keeps : Kept (check_global_ingress_ips api)
    unfolding check_global_ingress_ips
    check_global_ingress_ips-Keeps = search (keeping, adds, check_export-Keeps) depth 20

  verify_conditions-Keeps :
      (ready : String) (se : ServiceExport) (cs : List Condition) (type : String)
      (expected : ConditionStatus)
      → Kept (verify_conditions ready se cs type expected)
  unfolding verify_conditions
  verify_conditions-Keeps ready se [] type expected = search (keeping, adds) depth 20
  verify_conditions-Keeps ready se (c ∷ cs) type expected =
      Keeps-if _ _ _ _ (Keeps-if _ _ _ _ (Keeps-pure _ tt) (Keeps-emit _ _ (adds _)))
        (verify_conditions-Keeps ready se cs type expected)

  module _ (api : ExportsApi) (id : String) where
    verify_status_condition-Keeps :
        (se : ServiceExport) (type : String) (expected : ConditionStatus)
        → Kept (verify_status_condition api id se type expected)
    unfolding verify_status_condition
    verify_status_condition-Keeps se type expected =
        verify_conditions-Keeps api.ready se se.conditions type expected

    check_slices-Keeps : (se : ServiceExport) (ss : List String) → Kept (check_slices api id se ss)
    check_slices-Keeps se [] = Keeps-emit _ _ (adds _)
    check_slices-Keeps se (s ∷ ss) = Keeps-pure _ tt

    check_local_import-Keeps : (se : ServiceExport) → Kept (check_local_import api id se)
    unfolding check_local_import
    check_local_import-Keeps se = search (keeping, adds) depth 20

    check_aggregate_import-Keeps : (se : ServiceExport) → Kept (check_aggregate_import api id se)
    unfolding check_aggregate_import
    check_aggregate_import-Keeps se = search (keeping, adds) depth 20

    check_imports-Keeps : (se : ServiceExport) → Kept (check_imports api id se)
    unfolding check_imports
    check_imports-Keeps se =
        search (keeping, check_local_import-Keeps, check_aggregate_import-Keeps) depth 20

    check_exported-Keeps : (se : ServiceExport) → Kept (check_exported api id se)
    unfolding check_exported
    check_exported-Keeps se =
        search
          (keeping, adds, verify_status_condition-Keeps, check_slices-Keeps, check_imports-Keeps)
          depth 20

    check_one-Keeps : (r : Result ServiceExport) → Kept (check_one api id r)
    unfolding check_one
    check_one-Keeps (err e) = search (keeping, adds) depth 20
    check_one-Keeps (ok se) =
        search (keeping, adds, check_exported-Keeps, verify_status_condition-Keeps) depth 20

    check_all-Keeps : (rs : List (Result ServiceExport)) → Kept (check_all api id rs)
    unfolding check_all
    check_all-Keeps [] = Keeps-pure _ tt
    check_all-Keeps (r ∷ rs) =
        Keeps-bind _ _ _ (check_one-Keeps r)
          (λ goes_on. Keeps-if _ _ _ _ (check_all-Keeps rs) (Keeps-pure _ tt))

    pub check_service_export-Keeps : Kept (check_service_export api id)
    unfolding check_service_export
    check_service_export-Keeps = search (keeping, adds, check_all-Keeps) depth 20
