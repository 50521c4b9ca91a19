-- ===== src/Diagnose/Honest/Pools.antt =====
-- The check of Calico's IP pools: its errors and its failures.
use subctl.Base.{ℕ, String, String_eq, refl, Bool, true, false, List, [], ◌∷◌, Option, none, some}
use subctl.Base.Dict.{Dict, lookup}
use subctl.Base.Effect.{Result, ok, err, Event}
use subctl.Base.Keep.{
  Keeps, keeping, Adds, Keeps-pure, Keeps-emit, Keeps-bind, Keeps-if, Keeps-for_each,
}
use subctl.Cluster.Info.{InfoApi, SubmarinerCr, Gateway, get_gateways, listed}
use subctl.Diagnose.Tally.{
  AtLeast, AtLeast-Adds, Exactly-Adds, IsHonest, IsHonest-pure, IsHonest-report_error, IsHonest-if,
  IsHonest-deferring_end, IsHonest-or_report, IsHonest-bind, IsHonest-emit, IsHonest-tracked,
}
use subctl.Diagnose.Calico.{
  IpPool, CalicoApi, get_spec_bool, get_spec_string, check_nat_outgoing, check_disabled,
  check_remote_pool, check_calico_subm_config, check_mode, check_local_pool,
  check_calico_encapsulation, check_calico_ip_pools, add_pool, pools_by_cidr, check_pools,
  check_with_gateways, check_calico_ippools_if_calico_cni,
}

module _ (a b : ℕ) where
  adds : (e : Event) → Adds (AtLeast a b) e
  adds e = AtLeast-Adds a b e

  nat_outgoing-Keeps :
      (p : IpPool) (s : String) (r : Result Bool) → Keeps (AtLeast a b) (check_nat_outgoing p s r)
  nat_outgoing-Keeps p s (err e) = Keeps-emit _ _ (adds _)
  nat_outgoing-Keeps p s (ok true) = Keeps-emit _ _ (adds _)
  nat_outgoing-Keeps p s (ok false) = Keeps-pure _ tt

  check_disabled-Keeps :
      (p : IpPool) (s : String) (r : Result Bool) → Keeps (AtLeast a b) (check_disabled p s r)
  check_disabled-Keeps p s (err e) = Keeps-emit _ _ (adds _)
  check_disabled-Keeps p s (ok false) = Keeps-emit _ _ (adds _)
  check_disabled-Keeps p s (ok true) = nat_outgoing-Keeps p s (get_spec_bool p.nat_outgoing)

  remote_pool-Keeps : (s : String) (o : Option IpPool) → Keeps (AtLeast a b) (check_remote_pool s o)
  remote_pool-Keeps s none = Keeps-emit _ _ (adds _)
  remote_pool-Keeps s (some p) = check_disabled-Keeps p s (get_spec_bool p.disabled)

  check_mode-Keeps : (p : IpPool) (r : Result String) → Keeps (AtLeast a b) (check_mode p r)
  check_mode-Keeps p (err e) = Keeps-emit _ _ (adds _)
  check_mode-Keeps p (ok mode) = Keeps-if _ _ _ _ (Keeps-pure _ tt) (Keeps-emit _ _ (adds _))

  local_pool-Keeps : (o : Option IpPool) → Keeps (AtLeast a b) (check_local_pool o)
  local_pool-Keeps none = Keeps-pure _ tt
  local_pool-Keeps (some p) = check_mode-Keeps p (get_spec_string p.vxlan_mode)

  calico_pools-Keeps :
      (pools : Dict String IpPool) (gs : List Gateway)
      → Keeps (AtLeast a b) (check_calico_ip_pools pools gs)
  unfolding check_calico_ip_pools check_calico_subm_config check_calico_encapsulation
  calico_pools-Keeps pools gs = Keeps-for_each _ _ gs λ g.
      Keeps-if _ _ _ _
        (Keeps-bind _ _ _
          (Keeps-for_each _ _ g.connections
            (λ c. Keeps-for_each _ _ c.remote.subnets (λ s. remote_pool-Keeps s (lookup s pools))))
          (λ _.
            Keeps-for_each _ _ g.local_endpoint.subnets (λ s. local_pool-Keeps (lookup s pools))))
        (Keeps-pure _ tt)

  add_pool-Keeps :
      (pools : Dict String IpPool) (p : IpPool) (r : Result (Option String))
      → Keeps (AtLeast a b) (add_pool pools p r)
  add_pool-Keeps pools p (err e) = search (keeping, adds) depth 20
  add_pool-Keeps pools p (ok none) = search (keeping, adds) depth 20
  add_pool-Keeps pools p (ok (some cidr)) = Keeps-pure _ _

  pools_by_cidr-Keeps :
      (pools : Dict String IpPool) (ps : List IpPool) → Keeps (AtLeast a b) (pools_by_cidr pools ps)
  unfolding pools_by_cidr
  pools_by_cidr-Keeps pools [] = Keeps-pure _ _
  pools_by_cidr-Keeps pools (p ∷ ps) =
      Keeps-bind _ _ _ (add_pool-Keeps pools p p.cidr) (λ more. pools_by_cidr-Keeps more ps)

check_pools-IsHonest : (gs : List Gateway) (ps : List IpPool) → IsHonest (check_pools gs ps)
check_pools-IsHonest gs [] = IsHonest-report_error _ _ _
check_pools-IsHonest gs (p ∷ ps) = IsHonest-tracked _ _ (record {
  kept = λ a b.
      Keeps-bind _ _ _ (pools_by_cidr-Keeps a b [] (p ∷ ps))
        (λ pools. calico_pools-Keeps a b pools gs);
})

module _ (api : CalicoApi) (info : InfoApi) where
  gateways-IsHonest : (gs : List Gateway) → IsHonest (check_with_gateways api info gs)
  gateways-IsHonest [] = IsHonest-report_error _ _ _
  gateways-IsHonest (g ∷ gs) =
      IsHonest-bind _ _
        (IsHonest-or_report _ _ _
          (record { kept = λ a b. search (keeping, Exactly-Adds a b) depth 20 }))
        (check_pools-IsHonest (g ∷ gs))

  pub check_calico_ippools-IsHonest :
      (s : SubmarinerCr) → IsHonest (check_calico_ippools_if_calico_cni api info s)
  unfolding check_calico_ippools_if_calico_cni get_gateways listed
  check_calico_ippools-IsHonest s =
      IsHonest-if _ _ _
        (IsHonest-bind _ _ (IsHonest-emit _ refl) λ _. IsHonest-deferring_end _ (
          IsHonest-bind _ _
            (IsHonest-or_report _ _ _
              (record { kept = λ a b. search (keeping, Exactly-Adds a b) depth 20 }))
            gateways-IsHonest))
        (IsHonest-pure _)
