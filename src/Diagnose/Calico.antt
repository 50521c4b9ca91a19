-- ===== src/Diagnose/Calico.antt =====
-- checkCalicoIPPoolsIfCalicoCNI of pkg/diagnose/cni.go, with its helpers.
use subctl.Base.{
  String, String_eq, Text, ◌==◌, Bool, true, false, List, [], ◌∷◌, Option, none, some,
  if◌then◌else◌,
}
use subctl.Base.Dict.{Dict, lookup, insert}
use subctl.Base.Effect.{
  Result, ok, err, Log, Run, new_error, ask, emit, pure, ◌>>=◌, ◌>>◌, or_report, report_error,
  deferring_end, for_each, started, call, list, ip_pool,
}
use subctl.Cluster.Info.{InfoApi, SubmarinerCr, Gateway, get_gateways}
use subctl.Diagnose.{tracked, failure}

-- The fields of a pool's specification, as they are read: one of the wrong type is an error, and one that
-- is not there is none.
pub record IpPool : Type 0 where
  pub pool_name : String
  pub cidr : Result (Option String)
  pub disabled : Result (Option Bool)
  pub nat_outgoing : Result (Option Bool)
  pub vxlan_mode : Result (Option String)

pub record CalicoApi : Type 0 where
  -- strings.EqualFold with Calico's name.
  pub is_calico : Text → Bool
  pub list_ip_pools : Log → Result (List IpPool)

-- A flag that is not found is false.
unfoldable pub get_spec_bool : Result (Option Bool) → Result Bool
get_spec_bool (err e) = err e
get_spec_bool (ok none) = ok false
get_spec_bool (ok (some b)) = ok b

unfoldable pub get_spec_string : Result (Option String) → Result String
get_spec_string (err e) = err e
get_spec_string (ok none) = err (new_error "%s value not found for IPPool %q")
get_spec_string (ok (some s)) = ok s

abbrev pub check_nat_outgoing : IpPool → String → Result Bool → Run (Unit {0})
check_nat_outgoing pool subnet (err e) = failure "error getting spec field" []
check_nat_outgoing pool subnet (ok true) =
    failure "The IPPool %q with CIDR %q for remote endpoint %q has natOutgoing set to true"
      (pool.pool_name ∷ (subnet ∷ []))
check_nat_outgoing pool subnet (ok false) = pure tt

abbrev pub check_disabled : IpPool → String → Result Bool → Run (Unit {0})
check_disabled pool subnet (err e) = failure "error getting spec field" []
check_disabled pool subnet (ok false) =
    failure "The IPPool %q with CIDR %q for remote endpoint %q has disabled set to false"
      (pool.pool_name ∷ (subnet ∷ []))
check_disabled pool subnet (ok true) =
    check_nat_outgoing pool subnet (get_spec_bool pool.nat_outgoing)

-- For a subnet of a remote endpoint.
abbrev pub check_remote_pool : String → Option IpPool → Run (Unit {0})
check_remote_pool subnet none =
    failure "Could not find any IPPool with CIDR %q for remote endpoint %q" (subnet ∷ [])
check_remote_pool subnet (some pool) = check_disabled pool subnet (get_spec_bool pool.disabled)

unfoldable pub check_calico_subm_config : Dict String IpPool → Gateway → Run (Unit {0})
check_calico_subm_config pools g =
    for_each
      (λ c. for_each (λ subnet. check_remote_pool subnet (lookup subnet pools)) c.remote.subnets)
      g.connections

abbrev pub check_mode : IpPool → Result String → Run (Unit {0})
check_mode pool (err e) = failure "%s value not found for IPPool %q" (pool.pool_name ∷ [])
check_mode pool (ok mode) =
    if mode == "Always"
    then pure tt
    else failure "Calico IPPool %q does not seem to be configured with VXLAN overlay encapsulation."
        (pool.pool_name ∷ [])

abbrev pub check_local_pool : Option IpPool → Run (Unit {0})
check_local_pool none = pure tt
check_local_pool (some pool) = check_mode pool (get_spec_string pool.vxlan_mode)

unfoldable pub check_calico_encapsulation : Dict String IpPool → Gateway → Run (Unit {0})
check_calico_encapsulation pools g =
    for_each (λ subnet. check_local_pool (lookup subnet pools)) g.local_endpoint.subnets

unfoldable pub check_calico_ip_pools : Dict String IpPool → List Gateway → Run (Unit {0})
check_calico_ip_pools pools gateways =
    for_each
      (λ g.
        if g.is_active
        then check_calico_subm_config pools g >> check_calico_encapsulation pools g
        else pure tt)
      gateways

-- The pools by their CIDR, into a map: a later one of the same CIDR replaces an earlier one.
abbrev pub add_pool :
    Dict String IpPool → IpPool → Result (Option String) → Run (Dict String IpPool)
add_pool pools pool (err e) =
    failure "Error extracting field cidr from IPPool %q" (pool.pool_name ∷ []) >> pure pools
add_pool pools pool (ok none) =
    failure "No CIDR found in IPPool %q" (pool.pool_name ∷ []) >> pure pools
add_pool pools pool (ok (some cidr)) = pure (insert cidr pool pools)

unfoldable pub pools_by_cidr : Dict String IpPool → List IpPool → Run (Dict String IpPool)
pools_by_cidr pools [] = pure pools
pools_by_cidr pools (p ∷ ps) = add_pool pools p p.cidr >>= λ more. pools_by_cidr more ps

abbrev pub check_pools : List Gateway → List IpPool → Run (Unit {0})
check_pools gateways [] = report_error "" [] (new_error "no IPPools in the cluster")
check_pools gateways (p ∷ ps) =
    tracked "failures while diagnosing CNI"
      (pools_by_cidr [] (p ∷ ps) >>= λ pools. check_calico_ip_pools pools gateways)

module _ (api : CalicoApi) (info : InfoApi) where
  abbrev pub check_with_gateways : List Gateway → Run (Unit {0})
  check_with_gateways [] = report_error "" [] (new_error "no gateways detected on the cluster")
  check_with_gateways (g ∷ gs) =
      or_report "Error obtaining IPPools" [] (ask (call list ip_pool "" "") api.list_ip_pools)
      >>= λ pools. check_pools (g ∷ gs) pools

  unfoldable pub check_calico_ippools_if_calico_cni : SubmarinerCr → Run (Unit {0})
  check_calico_ippools_if_calico_cni s =
      if api.is_calico s.network_plugin
      then (emit (
            started
              "Calico CNI detected, checking if the Submariner IPPool pre-requisites are configured"
              [])
          >>= λ _. deferring_end (
              or_report "Error retrieving Gateways" [] (get_gateways info) >>= λ gateways.
              check_with_gateways gateways))
      else pure tt
