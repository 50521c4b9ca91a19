-- ===== src/Base/Entries.antt =====
-- The entries of a dict whose keys are all different.
use mathlib.Core.Path.{◌≡◌, sym, ap, subst}
use mathlib.Core.Logic.{◌≢◌, inl, inr}
use mathlib.Core.Bool.{Bool, true, false}
use mathlib.Core.List.{[], ◌∷◌}
use mathlib.Core.Option.{some}
use subctl.Base.Tests.{Bool-cases}
use subctl.Base.Lists.{All, Elem}
use subctl.Base.Equality.{Comparable, ◌==◌, ==_iff}
use subctl.Base.Dict.{Dict, lookup, insert}

module _ {K V : Type 0} where
  -- Not a key of the dict.
  abbrev pub IsAbsent : K → Dict K V → Type 0
  IsAbsent k d = All (λ e. e.0 ≢ k) d

  abbrev pub Distinct : Dict K V → Type 0
  Distinct [] = Unit {0}
  Distinct ((k, v) ∷ d) = IsAbsent k d × Distinct d

  pub All-of_Elem : (P : K × V → Type 0) (d : Dict K V) (e : K × V) → All P d → Elem e d → P e
  All-of_Elem P (x ∷ d) e h (inl same) = subst P (sym same) h.0
  All-of_Elem P (x ∷ d) e h (inr m) = All-of_Elem P d e h.1 m
  All-of_Elem P [] e h m = elim m [ ]

module _ {K V : Type 0} ⦃c : Comparable K⦄ where
  pub lookup-Elem : (k : K) (v : V) (d : Dict K V) → lookup k d ≡ some v → Elem (k, v) d
  unfolding lookup
  lookup-Elem k v [] h = cc
  lookup-Elem k v ((j, w) ∷ d) h = elim (Bool-cases (j == k)) [
    | inl e ↦ inl (here ((==_iff j k).0 e) (rw e at h))
    | inr e ↦ inr (lookup-Elem k v d (rw e at h))
  ]
    where
      here : j ≡ k → some w ≡ some v → ◌≡◌ {A = K × V} (k, v) (j, w)
      here e f = cc

  pub Elem-lookup :
      (k : K) (v : V) (d : Dict K V) → Distinct d → Elem (k, v) d → lookup k d ≡ some v
  unfolding lookup
  Elem-lookup k v [] h m = elim m [ ]
  Elem-lookup k v ((j, w) ∷ d) h (inl same) =
      let e : k ≡ j = ap (λ p. p.0) same in
      let f : v ≡ w = ap (λ p. p.1) same in rw ((==_iff j k).1 (sym e)) (ap some (sym f))
  Elem-lookup k v ((j, w) ∷ d) h (inr m) = elim (Bool-cases (j == k)) [
    | inl e ↦ elim (All-of_Elem (λ x. x.0 ≢ j) d (k, v) h.0 m (sym ((==_iff j k).0 e))) [ ]
    | inr e ↦ rw e (Elem-lookup k v d h.1 m)
  ]

  insert-IsAbsent :
      (j k : K) (v : V) (d : Dict K V) → k ≢ j → IsAbsent j d → IsAbsent j (insert k v d)
  unfolding insert
  insert-IsAbsent j k v [] ne h = (ne, tt)
  insert-IsAbsent j k v ((i, w) ∷ d) ne h = elim (Bool-cases (i == k)) [
    | inl e ↦ rw e (ne, h.1)
    | inr e ↦ rw e (h.0, insert-IsAbsent j k v d ne h.1)
  ]

  pub insert-Distinct : (k : K) (v : V) (d : Dict K V) → Distinct d → Distinct (insert k v d)
  unfolding insert
  insert-Distinct k v [] h = (tt, tt)
  insert-Distinct k v ((i, w) ∷ d) h = elim (Bool-cases (i == k)) [
    | inl e ↦ rw e (subst (λ j. IsAbsent j d) ((==_iff i k).0 e) h.0, h.1)
    | inr e ↦ rw e (
      insert-IsAbsent i k v d (λ same. differ e ((==_iff i k).1 (sym same))) h.0,
      insert-Distinct k v d h.1,
    )
  ]
    where
      differ : {b : Bool} → b ≡ false → b ≡ true → ⊥
      differ e f = cc

  pub All-insert :
      (P : K × V → Type 0) (k : K) (v : V) (d : Dict K V)
      → P (k, v)
      → All P d
      → All P (insert k v d)
  unfolding insert
  All-insert P k v [] p h = (p, tt)
  All-insert P k v ((i, w) ∷ d) p h = elim (Bool-cases (i == k)) [
    | inl e ↦ rw e (p, h.1)
    | inr e ↦ rw e (h.0, All-insert P k v d p h.1)
  ]
