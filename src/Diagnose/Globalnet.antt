-- ===== src/Diagnose/Globalnet.antt =====
-- pkg/diagnose/globalnet.go. A Service that is exported has an external IP where it is read.
use subctl.Base.{
  String, String_eq, ◌==◌, Bool, true, false, nat_eq, List, [], ◌∷◌, length, Option, none, some,
  if◌then◌else◌,
}
use subctl.Base.Effect.{
  Result, Log, Run, ask, emit, pure, ◌>>=◌, ◌>>◌, on_error, deferring_end, for_each, is_not_found,
  started, warned, call, get, list, cluster_egress_ip, egress_ip, ingress_ip, service,
  service_export,
}
use subctl.Cluster.Info.{SubmarinerCr}
use subctl.Join.Version.{ℤ, pos, same_nat}
use subctl.Diagnose.{tracked, failure}

-- meta.FindStatusCondition for "Allocated", and whether its status is "True".
pub record GlobalEgressIp : Type 0 where
  pub egress_name : String
  pub number_of_ips : Option ℤ
  pub allocated_ips : List String
  pub is_allocated : Option Bool

pub record GlobalIngressIp : Type 0 where
  pub ingress_name : String
  pub allocated_ip : String
  pub is_ingress_allocated : Option Bool

pub record ServiceInfo : Type 0 where
  pub is_cluster_ip : Bool
  pub external_ip : String

-- The namespace and the name.
abbrev pub Key : Type 0
Key = String × String

pub record GlobalnetApi : Type 0 where
  -- constants.ClusterGlobalEgressIPName
  pub default_name : String
  pub list_cluster_egress : Log → Result (List GlobalEgressIp)
  pub list_egress : Log → Result (List GlobalEgressIp)
  pub list_service_exports : Log → Result (List Key)
  pub get_service : String → String → Log → Result ServiceInfo
  pub get_ingress : String → String → Log → Result GlobalIngressIp
  pub list_internal_services : String → String → Log → Result (List ServiceInfo)

abbrev pub requested_ips : Option ℤ → ℤ
requested_ips none = pos 1
requested_ips (some n) = n

abbrev pub check_condition : String → String → Option Bool → Run (Unit {0})
check_condition kind name none =
    failure "%s %q is missing the %q status condition" (kind ∷ (name ∷ []))
check_condition kind name (some false) =
    failure "The allocation of global IPs for %s %q failed with reason %q and message %q"
      (kind ∷ (name ∷ []))
check_condition kind name (some true) = pure tt

-- The number of IPs, and the condition. The kind of the resource is a part of the source's messages.
unfoldable pub check_allocation : String → GlobalEgressIp → Run (Unit {0})
check_allocation kind g =
    (if same_nat (requested_ips g.number_of_ips) (length g.allocated_ips)
      then pure tt
      else failure
          "The number of requested IPs (%d) does not match the number allocated (%d) for %s %q"
          (kind ∷ (g.egress_name ∷ [])))
    >> check_condition kind g.egress_name g.is_allocated

unfoldable pub find_default : String → List GlobalEgressIp → Option GlobalEgressIp
find_default name [] = none
find_default name (g ∷ gs) = if g.egress_name == name then some g else find_default name gs

abbrev pub check_default : String → Option GlobalEgressIp → Run (Unit {0})
check_default name none =
    failure "Couldn't find the default ClusterGlobalEgressIP resource(%q)" (name ∷ [])
check_default name (some g) = check_allocation "ClusterGlobalEgressIP" g

module _ (api : GlobalnetApi) where
  unfoldable pub check_cluster_global_egress_ips : Run (Unit {0})
  check_cluster_global_egress_ips =
      on_error (ask (call list cluster_egress_ip "" "") api.list_cluster_egress)
        (λ gs.
          (if nat_eq (length gs) 1
            then pure tt
            else failure
                "Found %d ClusterGlobalEgressIP resources but only the default instance (%q) is supported"
                (api.default_name ∷ []))
          >> check_default api.default_name (find_default api.default_name gs))
        (λ e. failure "Error listing the ClusterGlobalEgressIP resources: %v" [])

  unfoldable pub check_global_egress_ips : Run (Unit {0})
  check_global_egress_ips =
      on_error (ask (call list egress_ip "" "") api.list_egress)
        (for_each (check_allocation "GlobalEgressIP"))
        (λ e. failure "Error obtaining GlobalEgressIPs resources: %v" [])

  abbrev pub check_internal : Key → GlobalIngressIp → List ServiceInfo → Run (Unit {0})
  check_internal (ns, name) ingress [] =
      failure "No internal service found for exported service \"%s/%s\"" (ns ∷ (name ∷ []))
  check_internal (ns, name) ingress (s ∷ []) =
      if s.external_ip == ingress.allocated_ip
      then pure tt
      else failure
          "The external IP (%s) for internal service associated with exported service \"%s/%s\" doesn'tmatch allocated IP (%s) in GlobalIngressIP %q"
          (s.external_ip ∷ (ns ∷ (name ∷ (ingress.allocated_ip ∷ (ingress.ingress_name ∷ [])))))
  check_internal (ns, name) ingress (s ∷ t ∷ rest) =
      failure "Found %d internal services for exported service \"%s/%s\" - expected 1"
        (ns ∷ (name ∷ []))

  unfoldable pub verify_internal_service : Key → GlobalIngressIp → Run (Unit {0})
  verify_internal_service (ns, name) ingress =
      on_error (ask (call list service ns name) (api.list_internal_services ns name))
        (check_internal (ns, name) ingress)
        (λ e. failure "Error listing internal Services \"%s/%s\": %v" (ns ∷ (name ∷ [])))

  abbrev pub check_ingress_condition : Key → GlobalIngressIp → Option Bool → Run (Unit {0})
  check_ingress_condition key ingress none =
      failure
        "GlobalIngressIP %q associated with exported service \"%s/%s\" is missingthe %q status condition"
        (ingress.ingress_name ∷ [])
  check_ingress_condition key ingress (some false) =
      failure
        "The allocation of global IPs for GlobalIngressIP %q associated with exportedservice \"%s/%s\" failed with reason %q and message %q"
        (ingress.ingress_name ∷ [])
  check_ingress_condition key ingress (some true) = verify_internal_service key ingress

  unfoldable pub check_ingress : Key → GlobalIngressIp → Run (Unit {0})
  check_ingress (ns, name) ingress =
      if ingress.allocated_ip == ""
      then failure
          "No global IP was allocated for the GlobalIngressIP associated with exported service \"%s/%s\""
          (ns ∷ (name ∷ []))
      else check_ingress_condition (ns, name) ingress ingress.is_ingress_allocated

  -- The body of the loop over the exported services.
  unfoldable pub check_export : Key → Run (Unit {0})
  check_export (ns, name) =
      on_error (ask (call get service ns name) (api.get_service ns name))
        (λ svc.
          if svc.is_cluster_ip
          then on_error (ask (call get ingress_ip ns name) (api.get_ingress ns name))
              (check_ingress (ns, name))
              (λ e.
                if is_not_found e
                then failure
                    "No matching GlobalIngressIP resource found for exported service \"%s/%s\""
                    (ns ∷ (name ∷ []))
                else failure "Error retrieving GlobalIngressIP for exported service \"%s/%s\": %v"
                    (ns ∷ (name ∷ [])))
          else pure tt)
        (λ e.
          if is_not_found e
          then emit (
              warned "No matching Service resource found for exported service \"%s/%s\""
                (ns ∷ (name ∷ [])))
          else failure "Error retrieving Service \"%s/%s\", %v" (ns ∷ (name ∷ [])))

  unfoldable pub check_global_ingress_ips : Run (Unit {0})
  check_global_ingress_ips =
      on_error (ask (call list service_export "" "") api.list_service_exports)
        (for_each check_export) (λ e. failure "Error listing ServiceExport resources: %v" [])

  unfoldable pub globalnet_config : SubmarinerCr → Run (Unit {0})
  globalnet_config s =
      if s.spec.global_cidr == ""
      then pure tt
      else emit (started "Checking that Globalnet is correctly configured and functioning" [])
        >>= λ _. deferring_end (
            tracked "failures while diagnosing Globalnet" (
              check_cluster_global_egress_ips >> check_global_egress_ips
              >> check_global_ingress_ips))
