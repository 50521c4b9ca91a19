-- ===== src/Join/Version.antt =====
-- pkg/version/version.go: the Kubernetes versions that Submariner needs. The API server says what its
-- version is; strconv.Atoi is a parameter.
use subctl.Base.{
  ℕ, String, Text, codes, Bool, true, false, ◌&&◌, ◌||◌, List, [], ◌∷◌, ◌++◌, ltb, nat_eq,
  has_suffix, if◌then◌else◌, ◌≡◌, ◌↔◌, ◌≤◌, ◌<◌, ◌⊎◌, arith,
}
use subctl.Base.Effect.{
  Result, Log, Run, ask, pure, lift, or_wrap, ◌>>=◌, call, get, server_version,
}

-- Go's int, as strconv.Atoi yields it.
pub data ℤ : Type 0 where
  pos : ℕ → ℤ
  negsuc : ℕ → ℤ

abbrev pub below : ℤ → ℕ → Bool
below (pos n) k = ltb n k
below (negsuc n) k = true

abbrev pub same_nat : ℤ → ℕ → Bool
same_nat (pos n) k = nat_eq n k
same_nat (negsuc n) k = false

abbrev pub min_k8s_major : ℕ
min_k8s_major = 1

abbrev pub min_k8s_minor_connectivity : ℕ
min_k8s_minor_connectivity = 19

abbrev pub min_k8s_minor_service_discovery : ℕ
min_k8s_minor_service_discovery = 21

-- `major < minK8sMajor || major == minK8sMajor && minor < minimum`
unfoldable pub is_too_old : ℤ → ℤ → ℕ → Bool
is_too_old major minor minimum =
    below major min_k8s_major || (same_nat major min_k8s_major && below minor minimum)

unfoldable pub failed_requirements : Bool → ℤ → ℤ → List String
failed_requirements service_discovery major minor =
    (if service_discovery && is_too_old major minor min_k8s_minor_service_discovery
      then "Submariner service discovery requires Kubernetes %d.%d" ∷ []
      else [])
    ++ (if is_too_old major minor min_k8s_minor_connectivity
        then "Submariner connectivity requires Kubernetes %d.%d" ∷ []
        else [])

-- `s[0 : len(s)-1]`
unfoldable pub without_last : Text → Text
without_last [] = []
without_last (c ∷ []) = []
without_last (c ∷ d ∷ s) = c ∷ without_last (d ∷ s)

module _ (atoi : Text → Result ℤ) (server : Log → Result (Text × Text)) where
  unfoldable pub parse_minor : Text → Result ℤ
  parse_minor minor = if has_suffix minor (codes "+") then atoi (without_last minor) else atoi minor

  -- CheckRequirements, less the version that it also returns.
  unfoldable pub check_version : Bool → Run (List String)
  check_version service_discovery =
      or_wrap "error obtaining API server version" (ask (call get server_version "" "") server)
      >>= λ version.
          or_wrap "error parsing API server major version %v" (lift (atoi version.0)) >>= λ major.
          or_wrap "error parsing API server minor version %v" (lift (parse_minor version.1))
          >>= λ minor. pure (failed_requirements service_discovery major minor)

-- The version is at least 1.`minimum`.
abbrev pub AtLeast : ℤ → ℤ → ℕ → Type 0
AtLeast (pos major) (pos minor) minimum = (1 < major) ⊎ ((major ≡ 1) × (minimum ≤ minor))
AtLeast (pos major) (negsuc minor) minimum = 1 < major
AtLeast (negsuc major) minor minimum = ⊥

is_too_old_iff :
    (major minor : ℤ) (minimum : ℕ)
    → (is_too_old major minor minimum ≡ false) ↔ AtLeast major minor minimum
unfolding is_too_old
is_too_old_iff (pos major) (pos minor) minimum = ground arith
is_too_old_iff (pos major) (negsuc minor) minimum = ground arith
is_too_old_iff (negsuc major) minor minimum = ground arith

-- No requirement of CheckRequirements fails exactly if the version of the cluster is at least 1.19, and
-- also at least 1.21 where service discovery is asked for; versions are compared by the major and then
-- by the minor number.
pub failed_requirements_none_iff :
    (service_discovery : Bool) (major minor : ℤ)
    → (failed_requirements service_discovery major minor ≡ [])
      ↔ (AtLeast major minor 19 × (service_discovery ≡ true → AtLeast major minor 21))
unfolding failed_requirements
failed_requirements_none_iff true major minor =
    ground (arith, is_too_old_iff major minor 19, is_too_old_iff major minor 21)
failed_requirements_none_iff false major minor =
    ground (arith, is_too_old_iff major minor 19, is_too_old_iff major minor 21)
