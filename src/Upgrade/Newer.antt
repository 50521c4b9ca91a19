-- ===== src/Upgrade/Newer.antt =====
-- upgradeSubctl of cmd/subctl/upgrade.go: the versions between which it decides.
use subctl.Base.{
  Text, Text_eq, codes, ◌==◌, ◌≡◌, refl, Bool, true, false, ◌||◌, ◌++◌, if◌then◌else◌, Bool-cases,
  inl, inr,
}
use subctl.Base.Effect.{Result, ok, err}
use subctl.Cluster.Id.{is_empty}
use subctl.Upgrade.{
  SemVer, keep, install, trim_prefix, is_comparable, compare_versions, decide_to, decide,
}

module _ {V : Type 0} (s : SemVer V) where
  -- The target is a version that is neither older than the current one nor the same.
  pub record IsNewer (current given target : Text) : Type 0 where
    pub from : V
    pub to : V
    pub read_from : s.new_version (trim_prefix current (codes "v")) ≡ ok from
    pub read_to : s.new_version (trim_prefix given (codes "v")) ≡ ok to
    pub not_older : s.less_than to from ≡ false
    pub not_same : s.equal to from ≡ false
    pub named : target ≡ codes "v" ++ s.show to

  by_test :
      (older same : Bool) (name target : Text)
      → (if older || same then keep else install name) ≡ install target
      → (older ≡ false) × (same ≡ false) × (target ≡ name)
  by_test false false name target h = (refl, refl, cc)
  by_test true same name target h = cc
  by_test false true name target h = cc

  by_current :
      (current given target : Text) (to : V) (r : Result V)
      → s.new_version (trim_prefix given (codes "v")) ≡ ok to
      → s.new_version (trim_prefix current (codes "v")) ≡ r
      → compare_versions s to r ≡ install target
      → IsNewer current given target
  unfolding compare_versions
  by_current current given target to (err e) f g h = cc
  by_current current given target to (ok from) f g h =
      let t = by_test (s.less_than to from) (s.equal to from) _ target h in
      record {
        from = from;
        to = to;
        read_from = g;
        read_to = f;
        not_older = t.0;
        not_same = t.1;
        named = t.2;
      }

  by_target :
      (current given target : Text) (r : Result V)
      → is_comparable current ≡ true
      → s.new_version (trim_prefix given (codes "v")) ≡ r
      → decide_to s current r ≡ install target
      → IsNewer current given target
  unfolding decide_to
  by_target current given target (err e) c f h = cc
  by_target current given target (ok to) c f h =
      by_current current given target to _ f refl (rw c at h)

  -- Where the current version is a release and a version is requested, upgradeSubctl only installs one
  -- that reads as a version neither older than the current one nor equal to it, and installs just that
  -- version.
  pub decide-IsNewer :
      (current given target : Text)
      → is_comparable current ≡ true
      → is_empty given ≡ false
      → (decide s current given).0 ≡ install target
      → IsNewer current given target
  unfolding decide
  decide-IsNewer current given target c filled h = elim (Bool-cases (given == current)) [
    | inl e ↦ impossible (rw e at h)
    | inr e ↦ by_target current given target _ c refl (rw (e, filled) at h)
  ]
    where
      impossible : {A : Type 0} → keep ≡ install target → A
      impossible k = cc
