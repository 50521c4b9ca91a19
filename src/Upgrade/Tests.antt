-- ===== src/Upgrade/Tests.antt =====
-- A cluster whose API server refuses to store secrets, and versions of one digit each.
use subctl.Base.{
  ℕ, Text, Text_eq, String_eq, codes, String, ◌==◌, ◌≡◌, refl, Bool, true, false, ◌||◌, List, [],
  ◌∷◌, ◌++◌, All, Option, none, some, ltb, nat_eq, if◌then◌else◌, has_prefix, arith, length,
}
use subctl.Base.Effect.{
  Result, ok, err, new_error, not_found, ask, pure, fail, ◌>>=◌, on_error, or_wrap, or_report,
  report_error, emit,
}
use subctl.Base.Keep.{Keeps}
use subctl.Cluster.Id.{is_empty}
use subctl.Kube.{Secret, Client, request, request_secret}
use subctl.Kube.Samples.{friendly_client, token_secret}
use subctl.Broker.{ensure_secret}
use subctl.Deploy.{drop}
use subctl.Deploy.Brokers.{Discovery}
use subctl.Upgrade.{
  SemVer, keep, install, trim_prefix, is_comparable, compare_versions, decide_to, decide, Site,
  copy_secret, migrate_broker_secret,
}
use subctl.Upgrade.Newer.{IsNewer, decide-IsNewer}
use subctl.Upgrade.Migrated.{IsKept, migrate_broker_secret-Keeps}

-- The minor version of "0.x.y".
minor : Text → Result ℕ
minor (zero_digit ∷ dot ∷ digit ∷ rest) = ok digit
minor _ = err (new_error "not a version")

abbrev semver : SemVer ℕ
unfolding minor
semver = record {
  new_version = minor;
  less_than = ltb;
  equal = nat_eq;
  show = λ digit. codes "0." ++ (digit ∷ codes ".0");
}

newer : (decide semver (codes "v0.8.1") (codes "v0.9.0")).0 ≡ install (codes "v0.9.0")
unfolding decide decide_to compare_versions is_comparable trim_prefix has_prefix drop semver minor
    subctl.Base.text_eq is_empty
newer = refl

-- The flag is left at the older version, without its "v".
older : decide semver (codes "v0.8.1") (codes "v0.7.0") ≡ (keep, codes "0.7.0")
unfolding decide decide_to compare_versions is_comparable trim_prefix has_prefix drop semver minor
    subctl.Base.text_eq is_empty
older = refl

released : is_comparable (codes "v0.8.1") ≡ true
unfolding is_comparable has_prefix
released = refl

decide-IsNewer_example : IsNewer semver (codes "v0.8.1") (codes "v0.9.0") (codes "v0.9.0")
unfolding is_empty
decide-IsNewer_example =
    decide-IsNewer semver (codes "v0.8.1") (codes "v0.9.0") (codes "v0.9.0") released refl newer

abbrev answer : String → Result Secret
answer name =
    if name == "submariner-broker-secret"
    then err (record { cause = not_found; messages = [] })
    else ok (token_secret name)

abbrev refusing : Client
refusing = record friendly_client {
  secret = λ v r ns n log. answer n;
  replace_secret = λ s ns log. err (new_error "forbidden");
}

abbrev discovery : Discovery
discovery = record {
  is_valid_cidr = λ cidr. ok tt;
  get_valid_allocation_size = λ cidr size. ok size;
  validate_global_networks = λ ns log. ok tt;
  create_global_config_map = λ enabled cidr size ns log. ok tt;
  validate_clusterset_networks = λ ns log. ok tt;
  create_clusterset_config_map = λ enabled cidr size ns log. ok tt;
  replace_broker = λ spec log. ok tt;
}

abbrev cluster : Client → Site
cluster c = record {
  client = c;
  discovery = discovery;
  new_producer = ok tt;
  get_broker = λ log. err (record { cause = not_found; messages = [] });
  replace_submariner = λ spec log. ok tt;
  apply_service_discovery = λ spec log. ok tt;
}

-- Where the new secret is stored the old one is deleted.
migrated :
    (migrate_broker_secret
      (cluster (record friendly_client { secret = λ v r ns n log. answer n }))
      "broker-secret-k5x"
      []).0
    ≡ ok "submariner-broker-secret"
unfolding migrate_broker_secret copy_secret ensure_secret request request_secret ask pure fail ◌>>=◌
    on_error or_wrap or_report report_error emit has_prefix
migrated = refl

migrate_broker_secret-Keeps_example :
    Keeps (All IsKept) (migrate_broker_secret (cluster refusing) "broker-secret-k5x")
migrate_broker_secret-Keeps_example =
    migrate_broker_secret-Keeps (cluster refusing) (λ s log. (new_error "forbidden", refl))
      "broker-secret-k5x"
