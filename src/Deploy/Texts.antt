-- ===== src/Deploy/Texts.antt =====
-- How the deployment reads the broker's URL and the name of the CoreDNS config map
-- (pkg/deploy/submariner.go).
use subctl.Base.{
  ℕ, suc, ◌+◌, ◌≤◌, Text, ◌≡◌, refl, ap, subst, ◌∙◌, [], ◌∷◌, ◌++◌, none, some, has_prefix, nat_eq,
  arith, length, ◌⊎◌, inl, inr, Bool-cases,
}
use subctl.Cluster.Id.{is_empty}
use subctl.Deploy.{
  slash, colon, schema_mark, index, drop, split, count, remove_schema_prefix,
  get_custom_core_dns_params,
}

split_none : (sep : ℕ) (s : Text) → count sep s ≡ 0 → split sep s ≡ s ∷ []
unfolding count split
split_none sep [] h = refl
split_none sep (c ∷ s) h = grind (arith, split_none sep s)

split_first : (sep : ℕ) (a b : Text) → count sep a ≡ 0 → split sep (a ++ sep ∷ b) ≡ a ∷ split sep b
unfolding count split
split_first sep [] b h = grind arith
split_first sep (c ∷ a) b h = grind (arith, split_first sep a b)

-- A text with one separator is made of the parts around it.
split_two :
    (sep : ℕ) (s : Text)
    → count sep s ≡ 1
    → (a : Text) × (b : Text) × (count sep a ≡ 0) × (count sep b ≡ 0) × (s ≡ a ++ sep ∷ b)
unfolding count
split_two sep [] h = cc
split_two sep (c ∷ s) h = elim (Bool-cases (nat_eq c sep)) [
  | inl e ↦ ([], s, refl, grind arith, grind arith)
  | inr e ↦
      let (a, b, no_a, no_b, same) = split_two sep s (grind arith) in
      (c ∷ a, b, grind arith, no_b, ap (λ t. c ∷ t) same)
]

index_first :
    (a b : Text) → count colon a ≡ 0 → index (a ++ (schema_mark ++ b)) schema_mark ≡ some (length a)
unfolding count index has_prefix
index_first [] b h = refl
index_first (c ∷ a) b h = grind (arith, index_first a b)

drop_mark : (a b : Text) → drop (3 + length a) (a ++ (schema_mark ++ b)) ≡ b
unfolding drop
drop_mark [] b = refl
drop_mark (c ∷ a) b =
    subst (λ n. drop n (c ∷ (a ++ (schema_mark ++ b))) ≡ b) (later (length a)) (drop_mark a b)
  where
    later : (n : ℕ) → suc (3 + n) ≡ 3 + suc n
    later n = omega arith

index_plain : (s : Text) → count slash s ≡ 0 → index s schema_mark ≡ none
unfolding count index has_prefix is_empty
index_plain [] h = refl
index_plain (c ∷ []) h = ground arith
index_plain (c ∷ d ∷ s) h = grind (arith, index_plain (d ∷ s))

remove_schema_prefix_mark :
    (scheme host : Text)
    → count colon scheme ≡ 0
    → remove_schema_prefix (scheme ++ (schema_mark ++ host)) ≡ host
unfolding remove_schema_prefix
remove_schema_prefix_mark scheme host h =
    rw (remove_schema_prefix, index_first scheme host h) (drop_mark scheme host)

-- For a scheme without a colon and a host without a slash, removeSchemaPrefix takes "scheme://" off
-- "scheme://host" and leaves "host" as it is: what it yields does not depend on whether the broker's
-- URL has a scheme.
pub remove_schema_prefix-host :
    (scheme host : Text)
    → count colon scheme ≡ 0
    → count slash host ≡ 0
    → (remove_schema_prefix (scheme ++ (schema_mark ++ host)) ≡ host)
      × (remove_schema_prefix host ≡ host)
unfolding remove_schema_prefix
remove_schema_prefix-host scheme host h k =
    (remove_schema_prefix_mark scheme host h, rw (remove_schema_prefix, index_plain host k))

params_pair :
    (ns name : Text)
    → count slash ns ≡ 0
    → count slash name ≡ 0
    → get_custom_core_dns_params (ns ++ slash ∷ name) ≡ (ns, name)
unfolding get_custom_core_dns_params is_empty
params_pair [] name h k = rw (split_first slash [] name h, split_none slash name k)
params_pair (c ∷ ns) name h k = rw (split_first slash (c ∷ ns) name h, split_none slash name k)

params_alone : (name : Text) → count slash name ≡ 0 → get_custom_core_dns_params name ≡ ([], name)
unfolding get_custom_core_dns_params is_empty
params_alone [] h = refl
params_alone (c ∷ name) h = rw (split_none slash (c ∷ name) h)

one_or_none : (n : ℕ) → n ≤ 1 → (n ≡ 0) ⊎ (n ≡ 1)
one_or_none n h = ground arith

-- A custom CoreDNS config map that has at most one slash, so that join accepts it, is read without a
-- loss: without a slash it is the name, and the namespace is empty; otherwise it is the namespace and
-- the name around the slash, neither of which has one.
pub get_custom_core_dns_params-Lossless :
    (config : Text)
    → count slash config ≤ 1
    → ((count slash config ≡ 0) × (get_custom_core_dns_params config ≡ ([], config)))
      ⊎ ((ns : Text) × (name : Text) × (count slash ns ≡ 0)
          × (count slash name ≡ 0)
          × (config ≡ ns ++ slash ∷ name)
          × (get_custom_core_dns_params config ≡ (ns, name)))
get_custom_core_dns_params-Lossless config h = elim (one_or_none (count slash config) h) [
  | inl e ↦ inl (e, params_alone config e)
  | inr e ↦
      let (ns, name, no_ns, no_name, same) = split_two slash config e in
      inr (
        ns,
        name,
        no_ns,
        no_name,
        same,
        ap get_custom_core_dns_params same ∙ params_pair ns name no_ns no_name,
      )
]
