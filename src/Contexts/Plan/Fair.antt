-- ===== src/Contexts/Plan/Fair.antt =====
-- RunOnAllContexts of internal/restconfig/restconfig.go, where no contexts are named: the context that
-- is chosen for each cluster.
use subctl.Base.{
  ℕ, ◌<◌, ◌≤◌, ◌≡◌, refl, sym, ap, subst, ◌∙◌, ◌≢◌, inl, inr, arith, String, String_eq, List, [],
  ◌∷◌, map, some, All, Elem,
}
use subctl.Base.Dict.{Dict, lookup}
use subctl.Base.Entries.{Distinct, lookup-Elem, Elem-lookup}
use subctl.Contexts.Defs.{Context}
use subctl.Contexts.Plan.{Choice, choose, select, Iterate, plan, group_from, usage_of, user_of}
use subctl.Contexts.Plan.Counts.{uses, usage_of-uses, uses-Elem, IsBest, select-IsBest}
use subctl.Contexts.Plan.Groups.{
  names_in, group_from-Distinct, Elem-group_from, group_from_complete, Elem-names_in,
  names_in_complete,
}

-- Ranging over a Go map visits every entry once, in an order of its own.
pub record IsOrder (iterate : Iterate) : Type 0 where
  pub once : (d : Dict String (List String)) → Distinct d → Distinct (iterate d)
  pub only :
      (d : Dict String (List String)) (e : String × List String) → Elem e (iterate d) → Elem e d
  pub every :
      (d : Dict String (List String)) (e : String × List String) → Elem e d → Elem e (iterate d)

-- No cluster is chosen twice.
abbrev pub Once : List Choice → Type 0
Once [] = Unit {0}
Once (ch ∷ chs) = All (λ other. other.chosen_cluster ≢ ch.chosen_cluster) chs × Once chs

-- The context of the choice belongs to its cluster, and no other one of that cluster has a user with
-- more contexts.
pub record IsChosen (contexts : Dict String Context) (ch : Choice) : Type 0 where
  pub context : Context
  pub found : lookup ch.chosen_context contexts ≡ some context
  pub its_cluster : context.cluster ≡ ch.chosen_cluster
  pub most_used :
      (n : String) (c : Context)
      → lookup n contexts ≡ some c
      → c.cluster ≡ ch.chosen_cluster
      → uses c.auth_info contexts ≤ uses context.auth_info contexts

pub record IsFair (contexts : Dict String Context) (chs : List Choice) : Type 0 where
  pub chosen : (ch : Choice) → Elem ch chs → IsChosen contexts ch
  pub complete :
      (n : String) (c : Context)
      → lookup n contexts ≡ some c
      → (ch : Choice) × Elem ch chs × (ch.chosen_cluster ≡ c.cluster)
  pub once : Once chs

-- Of a list of names.
record IsPick (usage : String → ℕ) (ns : List String) (name : String) : Type 0 where
  pub member : Elem name ns
  pub greatest : (n : String) → Elem n ns → usage n ≤ usage name

picked :
    (usage : String → ℕ) (n : String) (ns : List String) (r : ℕ × String)
    → 0 < usage n
    → IsBest usage (0, "") (n ∷ ns) r
    → IsPick usage (n ∷ ns) r.1
picked usage n ns r used h = elim h.source [
  | inl start ↦ elim (absurd (ap (λ p. p.0) start)) [ ]
  | inr found ↦ record {
    member = subst (λ x. Elem x (n ∷ ns)) (ap (λ p. p.1) (sym found.2)) found.1;
    greatest = λ k m.
        subst (λ x. usage k ≤ x) (ap (λ p. p.0) found.2 ∙ ap (λ p. usage p.1) (sym found.2))
          (h.above k m);
  }
]
  where
    absurd : r.0 ≡ 0 → ⊥
    absurd e = omega (arith, e, used, h.above n (inl refl))

choose-IsPick :
    (usage : String → ℕ) (k : String) (ns : List String)
    → ns ≢ []
    → ((n : String) → Elem n ns → 0 < usage n)
    → IsPick usage ns (choose usage (k, ns)).chosen_context
unfolding choose
choose-IsPick usage k [] filled used = elim (filled refl) [ ]
choose-IsPick usage k (n ∷ []) filled used = record {
  member = inl refl;
  greatest = λ m h. elim h [ inl same ↦ rw same (omega arith) | inr rest ↦ elim rest [ ] ];
}
choose-IsPick usage k (n ∷ m ∷ ns) filled used =
    picked usage n (m ∷ ns) (select usage (0, "") (n ∷ m ∷ ns)) (used n (inl refl))
      (select-IsBest usage (0, "") (n ∷ m ∷ ns))

choose_cluster :
    (usage : String → ℕ) (e : String × List String) → (choose usage e).chosen_cluster ≡ e.0
unfolding choose
choose_cluster usage (k, []) = refl
choose_cluster usage (k, n ∷ []) = refl
choose_cluster usage (k, n ∷ m ∷ ns) = refl

module _ (contexts : Dict String Context) (distinct : Distinct contexts) where
  usage_found :
      (n : String) (c : Context)
      → lookup n contexts ≡ some c
      → usage_of contexts n ≡ uses c.auth_info contexts
  usage_found n c e = usage_of-uses contexts n ∙ ap (λ o. uses (user_of o) contexts) e

  -- The context of a name of a cluster.
  named :
      (k n : String)
      → Elem n (names_in k contexts)
      → (c : Context) × (lookup n contexts ≡ some c) × (c.cluster ≡ k)
  named k n m =
      let r = Elem-names_in contexts k n m in (r.0, Elem-lookup n r.0 contexts distinct r.1, r.2)

  named_used : (k n : String) → Elem n (names_in k contexts) → 0 < usage_of contexts n
  named_used k n m =
      let r = named k n m in
      let positive = uses-Elem n r.0 contexts (lookup-Elem n r.0 contexts r.1) in
      rw (usage_found n r.0 r.1) positive

  choose-IsChosen :
      (e : String × List String)
      → Elem e (group_from [] contexts)
      → IsChosen contexts (choose (usage_of contexts) e)
  choose-IsChosen (k, ns) m =
      let group = Elem-group_from contexts (k, ns) m in
      let ch = choose (usage_of contexts) (k, ns) in
      let pick =
        choose-IsPick (usage_of contexts) k ns group.1
          (λ n h. named_used k n (subst (Elem n) group.0 h)) in
      let found = named k ch.chosen_context (subst (Elem ch.chosen_context) group.0 pick.member) in
      record {
        context = found.0;
        found = found.1;
        its_cluster = found.2 ∙ sym (choose_cluster (usage_of contexts) (k, ns));
        most_used = λ n c e same.
            let its = same ∙ choose_cluster (usage_of contexts) (k, ns) in
            let listed =
              subst (λ x. Elem n (names_in x contexts)) its
                (names_in_complete contexts n c (lookup-Elem n c contexts e)) in
            let least = pick.greatest n (subst (Elem n) (sym group.0) listed) in
            omega (arith, least, usage_found n c e, usage_found ch.chosen_context found.0 found.1);
      }

Elem-map-choose :
    (usage : String → ℕ) (ch : Choice) (d : Dict String (List String))
    → Elem ch (map (choose usage) d)
    → (e : String × List String) × Elem e d × (ch ≡ choose usage e)
Elem-map-choose usage ch [] m = elim m [ ]
Elem-map-choose usage ch (e ∷ d) (inl same) = (e, inl refl, same)
Elem-map-choose usage ch (e ∷ d) (inr l) =
    let r = Elem-map-choose usage ch d l in (r.0, inr r.1, r.2)

map-choose-Elem :
    (usage : String → ℕ) (e : String × List String) (d : Dict String (List String))
    → Elem e d
    → Elem (choose usage e) (map (choose usage) d)
map-choose-Elem usage e [] m = elim m [ ]
map-choose-Elem usage e (f ∷ d) (inl same) = inl (ap (choose usage) same)
map-choose-Elem usage e (f ∷ d) (inr l) = inr (map-choose-Elem usage e d l)

map-choose-Once :
    (usage : String → ℕ) (d : Dict String (List String)) → Distinct d → Once (map (choose usage) d)
map-choose-Once usage [] h = tt
map-choose-Once usage (e ∷ d) h = (others d h.0, map-choose-Once usage d h.1)
  where
    others :
        (rest : Dict String (List String))
        → All (λ f. f.0 ≢ e.0) rest
        → All
            (λ other. other.chosen_cluster ≢ (choose usage e).chosen_cluster)
            (map (choose usage) rest)
    others [] k = tt
    others (f ∷ rest) k = (
      λ same. k.0 (sym (choose_cluster usage f) ∙ same ∙ choose_cluster usage e),
      others rest k.1,
    )

-- Where the names of the contexts are all different, and a Go map is ranged over in any order that
-- visits each entry once: `subctl` with no context selected runs once for every cluster that some
-- context belongs to, on a context of that cluster, and no other context of that cluster has a user
-- whom more contexts of the configuration name.
pub plan-IsFair :
    (iterate : Iterate)
    → IsOrder iterate
    → (contexts : Dict String Context) → Distinct contexts
    → IsFair contexts (plan iterate contexts)
unfolding plan
plan-IsFair iterate order contexts distinct = record {
  chosen = λ ch m.
      let r = Elem-map-choose (usage_of contexts) ch (iterate (group_from [] contexts)) m in
      subst (IsChosen contexts) (sym r.2)
        (choose-IsChosen contexts distinct r.0 (order.only (group_from [] contexts) r.0 r.1));
  complete = λ n c e.
      let listed = names_in_complete contexts n c (lookup-Elem n c contexts e) in
      let group =
        order.every (group_from [] contexts) (c.cluster, names_in c.cluster contexts)
          (group_from_complete contexts c.cluster n listed) in
      (
        choose (usage_of contexts) (c.cluster, names_in c.cluster contexts),
        map-choose-Elem (usage_of contexts) (c.cluster, names_in c.cluster contexts)
            (iterate (group_from [] contexts)) group,
        choose_cluster (usage_of contexts) (c.cluster, names_in c.cluster contexts),
      );
  once =
      map-choose-Once (usage_of contexts) (iterate (group_from [] contexts))
        (order.once (group_from [] contexts) (group_from-Distinct [] contexts tt));
}
