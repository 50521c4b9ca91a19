-- ===== src/Contexts/Plan/Groups.antt =====
-- The contexts of each cluster.
use subctl.Base.{
  ◌≡◌, refl, sym, ap, subst, ◌∙◌, ◌≢◌, inl, inr, String, String_eq, ◌==◌, ==_iff, Bool, true, false,
  List, [], ◌∷◌, ◌++◌, append-nil, Option, none, some, if◌then◌else◌, Bool-cases, All, Elem,
}
use subctl.Base.Dict.{Dict, lookup, insert, lookup-insert}
use subctl.Base.Entries.{
  Distinct, All-of_Elem, All-insert, insert-Distinct, lookup-Elem, Elem-lookup,
}
use subctl.Contexts.Defs.{Context}
use subctl.Contexts.Plan.{or_nil, group_from}

-- The names of the contexts of a cluster, in order.
unfoldable pub names_in : String → Dict String Context → List String
names_in cluster [] = []
names_in cluster ((n, c) ∷ cs) =
    if c.cluster == cluster then n ∷ names_in cluster cs else names_in cluster cs

append_assoc : (xs ys zs : List String) → (xs ++ ys) ++ zs ≡ xs ++ (ys ++ zs)
append_assoc [] ys zs = refl
append_assoc (x ∷ xs) ys zs = ap (λ r. x ∷ r) (append_assoc xs ys zs)

lookup-group_from :
    (cluster : String) (d : Dict String (List String)) (cs : Dict String Context)
    → or_nil (lookup cluster (group_from d cs)) ≡ or_nil (lookup cluster d) ++ names_in cluster cs
unfolding group_from names_in
lookup-group_from cluster d [] = sym (append-nil (or_nil (lookup cluster d)))
lookup-group_from cluster d ((n, c) ∷ cs) =
    let names = or_nil (lookup c.cluster d) in
    lookup-group_from cluster (insert c.cluster (names ++ n ∷ []) d) cs
    ∙ (ap (λ o. or_nil o ++ names_in cluster cs)
          (lookup-insert c.cluster cluster (names ++ n ∷ []) d)
        ∙ added (c.cluster == cluster) (λ e. (==_iff c.cluster cluster).0 e))
  where
    added :
        (same : Bool)
        → (same ≡ true → c.cluster ≡ cluster)
        → or_nil (if same then some (or_nil (lookup c.cluster d) ++ n ∷ []) else lookup cluster d)
            ++ names_in cluster cs
          ≡ or_nil (lookup cluster d)
            ++ (if same then n ∷ names_in cluster cs else names_in cluster cs)
    added true same =
        rw (same refl) (append_assoc (or_nil (lookup cluster d)) (n ∷ []) (names_in cluster cs))
    added false same = refl

pub group_from-Distinct :
    (d : Dict String (List String)) (cs : Dict String Context)
    → Distinct d
    → Distinct (group_from d cs)
unfolding group_from
group_from-Distinct d [] h = h
group_from-Distinct d ((n, c) ∷ cs) h =
    group_from-Distinct (insert c.cluster (or_nil (lookup c.cluster d) ++ n ∷ []) d) cs
      (insert-Distinct c.cluster (or_nil (lookup c.cluster d) ++ n ∷ []) d h)

-- No cluster is listed without a context.
group_from_nonempty :
    (d : Dict String (List String)) (cs : Dict String Context)
    → All (λ e. e.1 ≢ []) d
    → All (λ e. e.1 ≢ []) (group_from d cs)
unfolding group_from
group_from_nonempty d [] h = h
group_from_nonempty d ((n, c) ∷ cs) h =
    let names = or_nil (lookup c.cluster d) in
    group_from_nonempty (insert c.cluster (names ++ n ∷ []) d) cs
      (All-insert (λ e. e.1 ≢ []) c.cluster (names ++ n ∷ []) d (appended names n) h)
  where
    appended : (ns : List String) (m : String) → (ns ++ m ∷ []) ≢ []
    appended [] m h = cc
    appended (k ∷ ns) m h = cc

-- The groups of the contexts are the clusters with the names of their contexts.
pub Elem-group_from :
    (cs : Dict String Context) (e : String × List String)
    → Elem e (group_from [] cs)
    → (e.1 ≡ names_in e.0 cs) × (e.1 ≢ [])
unfolding lookup
Elem-group_from cs e m =
    let found = Elem-lookup e.0 e.1 (group_from [] cs) (group_from-Distinct [] cs tt) m in
    (
      ap or_nil (sym found) ∙ lookup-group_from e.0 [] cs,
      All-of_Elem (λ x. x.1 ≢ []) (group_from [] cs) e (group_from_nonempty [] cs tt) m,
    )

pub group_from_complete :
    (cs : Dict String Context) (k n : String)
    → Elem n (names_in k cs)
    → Elem (k, names_in k cs) (group_from [] cs)
unfolding lookup
group_from_complete cs k n m = go (lookup k (group_from [] cs)) refl
  where
    go :
        (o : Option (List String))
        → lookup k (group_from [] cs) ≡ o
        → Elem (k, names_in k cs) (group_from [] cs)
    go none e = elim (subst (Elem n) (sym (ap or_nil (sym e) ∙ lookup-group_from k [] cs)) m) [ ]
    go (some ns) e =
        subst (λ x. Elem (k, x) (group_from [] cs)) (ap or_nil (sym e) ∙ lookup-group_from k [] cs)
          (lookup-Elem k ns (group_from [] cs) e)

pub Elem-names_in :
    (cs : Dict String Context) (k n : String)
    → Elem n (names_in k cs)
    → (c : Context) × Elem (n, c) cs × (c.cluster ≡ k)
unfolding names_in
Elem-names_in [] k n m = elim m [ ]
Elem-names_in ((i, c) ∷ cs) k n m =
    go (c.cluster == k) (λ e. (==_iff c.cluster k).0 e) (λ l. Elem-names_in cs k n l) m
  where
    go :
        (b : Bool)
        → (b ≡ true → c.cluster ≡ k)
        → (Elem n (names_in k cs) → (d : Context) × Elem (n, d) cs × (d.cluster ≡ k))
        → Elem n (if b then i ∷ names_in k cs else names_in k cs)
        → (d : Context) × Elem (n, d) ((i, c) ∷ cs) × (d.cluster ≡ k)
    go true same rest (inl e) = (c, inl (ap (λ x. (x, c)) e), same refl)
    go true same rest (inr l) = let r = rest l in (r.0, inr r.1, r.2)
    go false same rest l = let r = rest l in (r.0, inr r.1, r.2)

pub names_in_complete :
    (cs : Dict String Context) (n : String) (c : Context)
    → Elem (n, c) cs
    → Elem n (names_in c.cluster cs)
unfolding names_in
names_in_complete [] n c m = elim m [ ]
names_in_complete ((i, d) ∷ cs) n c (inl same) =
    rw ((==_iff d.cluster c.cluster).1 (ap (λ p. p.1.cluster) (sym same)))
      (inl (ap (λ p. p.0) same))
names_in_complete ((i, d) ∷ cs) n c (inr l) = elim (Bool-cases (d.cluster == c.cluster)) [
  | inl e ↦ rw e (inr (names_in_complete cs n c l))
  | inr e ↦ rw e (names_in_complete cs n c l)
]
