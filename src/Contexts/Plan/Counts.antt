-- ===== src/Contexts/Plan/Counts.antt =====
-- Counting the contexts of a user, and the context with the greatest count.
use mathlib.Core.Path.{◌≡◌, refl, sym, ap, ◌∙◌}
use mathlib.Core.Logic.{inl, inr, ◌⊎◌}
use native.Mathlib.Omega.{arith}
use Prim.Native.Nat.{◌≤◌, ◌<◌}
use subctl.Base.{
  ℕ, ◌+◌, String, String_eq, ◌==◌, ==_iff, ltb, List, [], ◌∷◌, if◌then◌else◌, Bool-cases, Elem,
}
use subctl.Base.Dict.{Dict, lookup, insert, lookup-insert}
use subctl.Contexts.Defs.{Context}
use subctl.Contexts.Plan.{or_zero, count_users, user_of, usage_of, select}

-- The number of contexts whose user is u.
unfoldable pub uses : String → Dict String Context → ℕ
uses u [] = 0
uses u ((n, c) ∷ cs) = (if c.auth_info == u then 1 else 0) + uses u cs

lookup-count_users :
    (u : String) (d : Dict String ℕ) (cs : Dict String Context)
    → or_zero (lookup u (count_users d cs)) ≡ or_zero (lookup u d) + uses u cs
unfolding count_users uses
lookup-count_users u d [] = omega arith
lookup-count_users u d ((n, c) ∷ cs) = ground (
  arith,
  ==_iff c.auth_info u,
  lookup-insert c.auth_info u (or_zero (lookup c.auth_info d) + 1) d,
  lookup-count_users u (insert c.auth_info (or_zero (lookup c.auth_info d) + 1) d) cs,
)

pub usage_of-uses :
    (contexts : Dict String Context) (name : String)
    → usage_of contexts name ≡ uses (user_of (lookup name contexts)) contexts
unfolding usage_of lookup
usage_of-uses contexts name =
    omega (arith, lookup-count_users (user_of (lookup name contexts)) [] contexts)

pub uses-Elem :
    (n : String) (c : Context) (cs : Dict String Context) → Elem (n, c) cs → 0 < uses c.auth_info cs
unfolding uses
uses-Elem n c [] m = elim m [ ]
uses-Elem n c ((k, d) ∷ cs) (inl same) =
    let e : c ≡ d = ap (λ p. p.1) same in
    rw ((==_iff d.auth_info c.auth_info).1 (ap (λ x. x.auth_info) (sym e))) (omega arith)
uses-Elem n c ((k, d) ∷ cs) (inr m) = omega (arith, uses-Elem n c cs m)

module _ (usage : String → ℕ) where
  better : (best : ℕ × String) (n : String) → ℕ × String
  better best n = if ltb best.0 (usage n) then (usage n, n) else best

  better_bounds :
      (best : ℕ × String) (n : String)
      → (best.0 ≤ (better best n).0) × (usage n ≤ (better best n).0)
  unfolding better
  better_bounds best n = ground arith

  better_source :
      (best : ℕ × String) (n : String) → (better best n ≡ best) ⊎ (better best n ≡ (usage n, n))
  unfolding better
  better_source best n = elim (Bool-cases (ltb best.0 (usage n))) [
    | inl e ↦ inr (rw e refl)
    | inr e ↦ inl (rw e refl)
  ]

  -- The best of the names, or the start where none is better.
  pub record IsBest (best : ℕ × String) (ns : List String) (r : ℕ × String) : Type 0 where
    pub above_start : best.0 ≤ r.0
    pub above : (n : String) → Elem n ns → usage n ≤ r.0
    pub source : (r ≡ best) ⊎ ((n : String) × Elem n ns × (r ≡ (usage n, n)))

  from_tail :
      (best : ℕ × String) (n : String) (ns : List String) (r : ℕ × String)
      → IsBest (better best n) ns r
      → IsBest best (n ∷ ns) r
  from_tail best n ns r h = record {
    above_start = omega (arith, h.above_start, better_bounds best n);
    above = λ k m. elim m [
      | inl same ↦ rw same (omega (arith, h.above_start, better_bounds best n))
      | inr later ↦ h.above k later
    ];
    source = elim h.source [
      | inl same ↦ elim (better_source best n) [
        | inl kept ↦ inl (same ∙ kept)
        | inr new ↦ inr (n, inl refl, same ∙ new)
      ]
      | inr found ↦ inr (found.0, inr found.1, found.2)
    ];
  }

  pub select-IsBest : (best : ℕ × String) (ns : List String) → IsBest best ns (select usage best ns)
  unfolding select better
  select-IsBest best [] = record {
    above_start = omega arith;
    above = λ n m. elim m [ ];
    source = inl refl;
  }
  select-IsBest best (n ∷ ns) =
      from_tail best n ns (select usage (better best n) ns) (select-IsBest (better best n) ns)
