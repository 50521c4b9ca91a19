-- ===== src/Deploy/Brokers/Checked.antt =====
-- The options of the broker command are checked before anything is changed (pkg/deploy/broker.go).
use subctl.Base.{
  ℕ, String, String_eq, ==_iff, ◌≡◌, refl, sym, ap, ◌∙◌, ◌≢◌, ◌↔◌, ◌⊎◌, inl, inr, Bool, true, false,
  List, [], ◌∷◌, All, contains, if◌then◌else◌, arith,
}
use subctl.Base.Effect.{Result, ok, err, Event, call, remote}
use subctl.Base.Keep.{Keeps, Adds-All}
use subctl.Base.Results.{Keeps-check}
use subctl.Kube.{Client}
use subctl.Broker.{connectivity, service_discovery_component}
use subctl.Deploy.Brokers.{
  BrokerSpec, BrokerOptions, Discovery, all_known, is_valid_components, check_globalnet_config,
  broker, valid_range, with_size,
}

all_known_iff :
    (cs : List String)
    → (all_known cs ≡ ok tt) ↔ All (λ c. (c ≡ service_discovery_component) ⊎ (c ≡ connectivity)) cs
unfolding all_known contains
all_known_iff [] = (λ _. tt, λ _. refl)
all_known_iff (c ∷ cs) = (
  λ h. grind (arith, ==_iff c service_discovery_component, ==_iff c connectivity, all_known_iff cs),
  λ h. grind (arith, ==_iff c service_discovery_component, ==_iff c connectivity, all_known_iff cs),
)

-- isValidComponents accepts a list of components exactly if it is not empty and each one is
-- "service-discovery" or "connectivity".
pub is_valid_components_ok_iff :
    (cs : List String)
    → (is_valid_components cs ≡ ok tt)
      ↔ ((cs ≢ []) × All (λ c. (c ≡ service_discovery_component) ⊎ (c ≡ connectivity)) cs)
unfolding is_valid_components
is_valid_components_ok_iff [] = (λ h. cc, λ h. elim (h.0 refl) [ ])
is_valid_components_ok_iff (c ∷ cs) =
    (λ h. (λ e. cc, (all_known_iff (c ∷ cs)).0 h), λ h. (all_known_iff (c ∷ cs)).1 h.1)

-- A call of the reporter, and none of the API.
abbrev pub IsReport : Event → Type 0
IsReport (call v r ns n) = ⊥
IsReport (remote v r ns n) = ⊥
IsReport _ = Unit {0}

-- The options that one of the three checks refuses.
abbrev pub IsRefused : Discovery → BrokerSpec → Type 0
IsRefused d spec =
    (is_valid_components spec.components ≢ ok tt)
    ⊎ (((s : BrokerSpec) → check_globalnet_config d spec ≢ ok s)
        ⊎ (d.is_valid_cidr spec.clusterset_ip_cidr_range ≢ ok tt))

module _ (d : Discovery) where
  valid_range_same :
      (spec : BrokerSpec) (r : Result BrokerSpec) (v : Result (Unit {0})) {s : BrokerSpec}
      → valid_range d spec r v ≡ ok s
      → r ≡ ok s
  valid_range_same spec (err e) v h = cc
  valid_range_same spec (ok t) (err e) h = cc
  valid_range_same spec (ok t) (ok _) h = h

  with_size_range :
      (spec : BrokerSpec) (r : Result ℕ) {s : BrokerSpec}
      → with_size d spec r ≡ ok s
      → s.clusterset_ip_cidr_range ≡ spec.clusterset_ip_cidr_range
  with_size_range spec (err e) h = cc
  with_size_range spec (ok n) h = cc

  enabled_range :
      (b : Bool) (spec : BrokerSpec) (r : Result BrokerSpec) {s : BrokerSpec}
      → ((t : BrokerSpec) → r ≡ ok t → t.clusterset_ip_cidr_range ≡ spec.clusterset_ip_cidr_range)
      → (if b then r else ok spec) ≡ ok s
      → s.clusterset_ip_cidr_range ≡ spec.clusterset_ip_cidr_range
  enabled_range true spec r {s} k h = k s h
  enabled_range false spec r k h = cc

  check_globalnet_config-range :
      (spec : BrokerSpec) {s : BrokerSpec}
      → check_globalnet_config d spec ≡ ok s
      → s.clusterset_ip_cidr_range ≡ spec.clusterset_ip_cidr_range
  unfolding check_globalnet_config
  check_globalnet_config-range spec h =
      enabled_range spec.globalnet_enabled spec _
        (λ t e. with_size_range spec _ (valid_range_same spec _ _ e)) h

  refused :
      (spec s : BrokerSpec)
      → IsRefused d spec
      → is_valid_components spec.components ≡ ok tt
      → check_globalnet_config d spec ≡ ok s
      → d.is_valid_cidr s.clusterset_ip_cidr_range ≡ ok tt
      → ⊥
  refused spec s (inl h) e f g = h e
  refused spec s (inr (inl h)) e f g = h s f
  refused spec s (inr (inr h)) e f g =
      h (ap d.is_valid_cidr (sym (check_globalnet_config-range spec f)) ∙ g)

  -- When the components, the globalnet configuration or the clusterset CIDR of the options are refused,
  -- the broker command calls nothing of the API: if all events of the log were reports before, they are
  -- after it.
  pub broker-Refused :
      (c : Client) (options : BrokerOptions)
      → IsRefused d options.broker_spec
      → Keeps (All IsReport) (broker d c options)
  unfolding broker
  broker-Refused c options h = Keeps-check (All IsReport) _ _ _ _ (Adds-All IsReport _ tt) λ a e.
      Keeps-check (All IsReport) _ _ _ _ (Adds-All IsReport _ tt) λ s f.
        Keeps-check (All IsReport) _ _ _ _ (Adds-All IsReport _ tt)
          λ b g. elim (refused options.broker_spec s h e f g) [ ]
