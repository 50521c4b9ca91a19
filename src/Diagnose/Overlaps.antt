-- ===== src/Diagnose/Overlaps.antt =====
-- checkOverlappingCIDRs of pkg/diagnose/deployments.go: which endpoints it accepts.
use subctl.Base.{
  ℕ, ◌+◌, String, String_eq, ◌==◌, ==_iff, ◌≡◌, ◌≢◌, ◌↔◌, refl, ap, ◌∙◌, Bool, true, false, ltb,
  List, [], ◌∷◌, All, if◌then◌else◌, arith, Bool-cases, inl, inr,
}
use subctl.Base.Effect.{
  Result, ok, err, Log, Run, emit, pure, ◌>>=◌, bind_from, for_each, new_error,
}
use subctl.Cluster.Info.{Endpoint}
use subctl.Diagnose.{failures, tracked, failure}
use subctl.Diagnose.Deployments.{DeploymentsApi, check_subnet, check_pair, check_pairs}

-- A run without an error that reports so many failures.
record Fails (n : ℕ) (m : Run (Unit {0})) : Type 0 where
  pub run : (log : Log) → ((m log).0 ≡ ok tt) × (failures (m log).1 ≡ n + failures log)

Fails-pure : Fails 0 (pure tt)
unfolding pure
Fails-pure = record { run = λ log. (refl, omega arith) }

Fails-failure : (s : String) (args : List String) → Fails 1 (failure s args)
unfolding emit failures
Fails-failure s args = record { run = λ log. (refl, refl) }

Fails-bind : (m k : Run (Unit {0})) (i j : ℕ) → Fails i m → Fails j k → Fails (i + j) (m >>= λ _. k)
unfolding ◌>>=◌
Fails-bind m k i j h h' = record { run = λ log. by_result log (m log) (h.run log) }
  where
    by_result :
        (log : Log) (r : Result (Unit {0}) × Log)
        → (r.0 ≡ ok tt) × (failures r.1 ≡ i + failures log)
        → ((bind_from r (λ _. k)).0 ≡ ok tt)
          × (failures (bind_from r (λ _. k)).1 ≡ (i + j) + failures log)
    by_result log (ok x, after) e = ((h'.run after).0, omega (arith, (h'.run after).1, e.1))
    by_result log (err x, after) e = cc

not_zero : {A : Type 0} → ◌≡◌ {A = ℕ} 1 0 → A
not_zero h = elim (absurd h) [ ]
  where
    absurd : ◌≡◌ {A = ℕ} 1 0 → ⊥
    absurd e = omega (arith, e)

sum : {A : Type 0} → (A → ℕ) → List A → ℕ
sum n [] = 0
sum n (x ∷ xs) = n x + sum n xs

Fails-for_each :
    {A : Type 0} (body : A → Run (Unit {0})) (n : A → ℕ) (xs : List A)
    → ((x : A) → Fails (n x) (body x))
    → Fails (sum n xs) (for_each body xs)
unfolding for_each sum
Fails-for_each body n [] h = Fails-pure
Fails-for_each body n (x ∷ xs) h =
    Fails-bind (body x) (for_each body xs) (n x) (sum n xs) (h x) (Fails-for_each body n xs h)

sum_zero_iff :
    {A : Type 0} (n : A → ℕ) (P : A → Type 0) (xs : List A)
    → ((x : A) → (n x ≡ 0) ↔ P x)
    → (sum n xs ≡ 0) ↔ All P xs
unfolding sum
sum_zero_iff n P [] h = (λ _. tt, λ _. refl)
sum_zero_iff n P (x ∷ xs) h = (
  λ e. ((h x).0 (omega (arith, e)), (sum_zero_iff n P xs h).0 (omega (arith, e))),
  λ all. omega (arith, (h x).1 all.0, (sum_zero_iff n P xs h).1 all.1),
)

module _ (api : DeploymentsApi) where
  -- No subnet of the second overlaps with the first, and all of them can be read.
  pub record AreApart (source dest : Endpoint) : Type 0 where
    pub clusters : source.endpoint_cluster ≢ dest.endpoint_cluster
    pub subnets : All (λ s. api.is_overlapping source.subnets s ≡ ok false) dest.subnets

  -- Each with all that come after it.
  abbrev pub AllApart : List Endpoint → Type 0
  AllApart [] = Unit {0}
  AllApart (e ∷ es) = All (AreApart e) es × AllApart es

  weight : Result Bool → ℕ
  weight (ok false) = 0
  weight (ok true) = 1
  weight (err e) = 1

  weight_zero_iff : (r : Result Bool) → (weight r ≡ 0) ↔ (r ≡ ok false)
  unfolding weight
  weight_zero_iff (ok false) = (λ _. refl, λ _. refl)
  weight_zero_iff (ok true) = (λ h. not_zero h, λ h. cc)
  weight_zero_iff (err e) = (λ h. not_zero h, λ h. cc)

  subnet-Fails :
      (s d : Endpoint) (subnet : String)
      → Fails (weight (api.is_overlapping s.subnets subnet)) (check_subnet api s d subnet)
  unfolding check_subnet weight
  subnet-Fails s d subnet = by_answer (api.is_overlapping s.subnets subnet)
    where
      by_answer :
          (r : Result Bool)
          → Fails (weight r) (elim r [
            | err e ↦ failure "Error parsing CIDR in cluster %q: %s" (d.endpoint_cluster ∷ [])
            | ok true ↦
                failure "CIDR %q in cluster %q overlaps with cluster %q (CIDRs: %v)"
                  (subnet ∷ (d.endpoint_cluster ∷ (s.endpoint_cluster ∷ s.subnets)))
            | ok false ↦ pure tt
          ])
      by_answer (ok true) = Fails-failure _ _
      by_answer (ok false) = Fails-pure
      by_answer (err e) = Fails-failure _ _

  pair_weight : Endpoint → Endpoint → ℕ
  pair_weight s d =
      if s.endpoint_cluster == d.endpoint_cluster
      then 1
      else sum (λ subnet. weight (api.is_overlapping s.subnets subnet)) d.subnets

  pair-Fails : (s d : Endpoint) → Fails (pair_weight s d) (check_pair api s d)
  unfolding pair_weight check_pair
  pair-Fails s d = by_test (s.endpoint_cluster == d.endpoint_cluster)
    where
      by_test :
          (t : Bool)
          → Fails
              (if t
                then 1
                else sum (λ subnet. weight (api.is_overlapping s.subnets subnet)) d.subnets)
              (if t
                then failure "Found multiple Submariner endpoints (%q and %q) in cluster %q"
                    (s.endpoint_name ∷ (d.endpoint_name ∷ (s.endpoint_cluster ∷ [])))
                else for_each (check_subnet api s d) d.subnets)
      by_test true = Fails-failure _ _
      by_test false = Fails-for_each _ _ d.subnets (subnet-Fails s d)

  pair_zero_iff : (s d : Endpoint) → (pair_weight s d ≡ 0) ↔ AreApart s d
  unfolding pair_weight
  pair_zero_iff s d =
      let inner =
        sum_zero_iff (λ subnet. weight (api.is_overlapping s.subnets subnet))
          (λ subnet. api.is_overlapping s.subnets subnet ≡ ok false) d.subnets
          (λ subnet. weight_zero_iff (api.is_overlapping s.subnets subnet)) in
      let same = ==_iff s.endpoint_cluster d.endpoint_cluster in
      elim (Bool-cases (s.endpoint_cluster == d.endpoint_cluster)) [
        | inl e ↦ (λ h. not_zero (rw e at h), λ apart. elim (apart.clusters (same.0 e)) [ ])
        | inr e ↦ (
          λ h. record { clusters = λ p. differ e (same.1 p); subnets = inner.0 (rw e at h) },
          λ apart. rw e (inner.1 apart.subnets),
        )
      ]
    where
      differ : {t : Bool} → t ≡ false → t ≡ true → ⊥
      differ e f = cc

  pairs_weight : List Endpoint → ℕ
  pairs_weight [] = 0
  pairs_weight (e ∷ es) = sum (pair_weight e) es + pairs_weight es

  pairs_fail : (es : List Endpoint) → Fails (pairs_weight es) (check_pairs api es)
  unfolding pairs_weight check_pairs
  pairs_fail [] = Fails-pure
  pairs_fail (e ∷ es) =
      Fails-bind _ _ _ _ (Fails-for_each (check_pair api e) (pair_weight e) es (pair-Fails e))
        (pairs_fail es)

  pairs_zero_iff : (es : List Endpoint) → (pairs_weight es ≡ 0) ↔ AllApart es
  unfolding pairs_weight
  pairs_zero_iff [] = (λ _. tt, λ _. refl)
  pairs_zero_iff (e ∷ es) =
      let here = sum_zero_iff (pair_weight e) (AreApart e) es (pair_zero_iff e) in
      let rest = pairs_zero_iff es in
      (
        λ h. (here.0 (omega (arith, h)), rest.0 (omega (arith, h))),
        λ all. omega (arith, here.1 all.0, rest.1 all.1),
      )

  -- The check of the endpoints under its tracker returns no error just where any two of them, in the order
  -- of the list, are of different clusters, and every subnet of the later one is found not to overlap with
  -- those of the earlier one. A subnet that cannot be read makes it fail.
  pub check_pairs_ok_iff :
      (message : String) (es : List Endpoint) (log : Log)
      → ((tracked message (check_pairs api es) log).0 ≡ ok tt) ↔ AllApart es
  unfolding tracked
  check_pairs_ok_iff message es log =
      let count = ((pairs_fail es).run log).1 in
      let zero = pairs_zero_iff es in
      elim (Bool-cases (ltb (failures log) (failures (check_pairs api es log).1))) [
        | inl e ↦ (
          λ h. refuted (rw e at h),
          λ all. elim (growing _ _ e (count ∙ ap (λ n. n + failures log) (zero.1 all))) [ ],
        )
        | inr e ↦ (λ _. zero.0 (none_more _ _ _ e count), λ _. rw e refl)
      ]
    where
      refuted : ◌≡◌ {A = Result (Unit {0})} (err (new_error message)) (ok tt) → AllApart es
      refuted h = cc

      growing : (a b : ℕ) → ltb a b ≡ true → b ≡ 0 + a → ⊥
      growing a b e f = ground (arith, e, f)

      none_more : (a b n : ℕ) → ltb a b ≡ false → b ≡ n + a → n ≡ 0
      none_more a b n e f = ground (arith, e, f)
