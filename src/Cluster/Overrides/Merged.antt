-- ===== src/Cluster/Overrides/Merged.antt =====
-- What the merged image overrides hold (MergeImageOverrides of pkg/cluster/info.go).
use subctl.Base.{
  ◌≡◌, refl, sym, ap, ◌∙◌, ◌↔◌, Bool, true, false, List, [], ◌∷◌, Option, none, some, Text, Text_eq,
  cut, contains, ◌==◌, if◌then◌else◌, All,
}
use subctl.Base.Dict.{lookup, insert, lookup-insert}
use subctl.Base.Effect.{ok, err}
use subctl.Cluster.Overrides.{
  Overrides, equals, merge, merge_image_overrides, invalid_override, invalid_component,
}

ok-injective : {m n : Overrides} → ok m ≡ ok n → m ≡ n
ok-injective e = cc

module _ (valid_overrides : List Text) where
  -- An override `a=b` of a known component.
  abbrev pub IsOverride : Text → Type 0
  IsOverride s =
      (component : Text) × (url : Text) × (cut equals s ≡ some (component, url))
      × (contains valid_overrides component ≡ true)

  -- What the last override of the component says; `before` where there is none.
  abbrev pub last_override : Text → Option Text → List Text → Option Text
  last_override k before [] = before
  last_override k before (s ∷ rest) =
      last_override k
        (elim (cut equals s) [
          | none ↦ before
          | some (component, url) ↦ if component == k then some url else before
        ])
        rest

  merge_step :
      (m : Overrides) (s : Text) (rest : List Text) (component url : Text)
      → cut equals s ≡ some (component, url)
      → contains valid_overrides component ≡ true
      → merge valid_overrides m (s ∷ rest) ≡ merge valid_overrides (insert component url m) rest
  unfolding merge
  merge_step m s rest component url c v = rw (c, merge, v)

  merge_total :
      (m : Overrides) (ss : List Text)
      → All IsOverride ss
      → (merged : Overrides) × (merge valid_overrides m ss ≡ ok merged)
  unfolding merge
  merge_total m [] all = (m, refl)
  merge_total m (s ∷ rest) ((component, url, c, v), all) =
      rw (c, merge, v) (merge_total (insert component url m) rest all)

  merge_uncut :
      (m : Overrides) (s : Text) (rest : List Text)
      → cut equals s ≡ none
      → merge valid_overrides m (s ∷ rest) ≡ err invalid_override
  unfolding merge
  merge_uncut m s rest c = rw (c, merge)

  merge_unknown :
      (m : Overrides) (s : Text) (rest : List Text) (component url : Text)
      → cut equals s ≡ some (component, url)
      → contains valid_overrides component ≡ false
      → merge valid_overrides m (s ∷ rest) ≡ err invalid_component
  unfolding merge
  merge_unknown m s rest component url c v = rw (c, merge, v)

  -- What a step that does not fail has found, and where it goes on.
  abbrev Stepped : Overrides → Text → List Text → Overrides → Type 0
  Stepped m s rest merged =
      (component : Text) × (url : Text) × (cut equals s ≡ some (component, url))
      × (contains valid_overrides component ≡ true)
      × (merge valid_overrides (insert component url m) rest ≡ ok merged)

  step-Stepped :
      (m : Overrides) (s : Text) (rest : List Text) (merged : Overrides)
      → merge valid_overrides m (s ∷ rest) ≡ ok merged
      → Stepped m s rest merged
  step-Stepped m s rest merged e = by_cut (cut equals s) refl
    where
      by_known :
          (component url : Text) (b : Bool)
          → cut equals s ≡ some (component, url)
          → contains valid_overrides component ≡ b
          → Stepped m s rest merged
      by_known component url true c v =
          (component, url, c, v, sym (merge_step m s rest component url c v) ∙ e)
      by_known component url false c v = absurd (cc (merge_unknown m s rest component url c v))

      by_cut : (o : Option (Text × Text)) → cut equals s ≡ o → Stepped m s rest merged
      by_cut none c = absurd (cc (merge_uncut m s rest c))
      by_cut (some (component, url)) c =
          by_known component url (contains valid_overrides component) c refl

  merge-IsOverride :
      (m : Overrides) (ss : List Text) (merged : Overrides)
      → merge valid_overrides m ss ≡ ok merged
      → All IsOverride ss
  merge-IsOverride m [] merged e = tt
  merge-IsOverride m (s ∷ rest) merged e =
      let (component, url, c, v, e') = step-Stepped m s rest merged e in
      ((component, url, c, v), merge-IsOverride (insert component url m) rest merged e')

  last_override_step :
      (k : Text) (before : Option Text) (s : Text) (rest : List Text) (component url : Text)
      → cut equals s ≡ some (component, url)
      → last_override k before (s ∷ rest)
        ≡ last_override k (if component == k then some url else before) rest
  last_override_step k before s rest component url c =
      ap (λ (o : Option Text). last_override k o rest) (rw c)

  merged_lookup :
      (k : Text) (m : Overrides) (ss : List Text) (merged : Overrides)
      → merge valid_overrides m ss ≡ ok merged
      → lookup k merged ≡ last_override k (lookup k m) ss
  unfolding merge
  merged_lookup k m [] merged e = ap (lookup k) (sym (ok-injective e))
  merged_lookup k m (s ∷ rest) merged e =
      let (component, url, c, v, e') = step-Stepped m s rest merged e in
      merged_lookup k (insert component url m) rest merged e'
      ∙ ap (λ (o : Option Text). last_override k o rest) (lookup-insert component k url m)
      ∙ sym (last_override_step k (lookup k m) s rest component url c)

  -- A nil map has no entries.
  abbrev pub entries : Option Overrides → Overrides
  entries none = []
  entries (some m) = m

  merge_of :
      (m : Option Overrides) (ss : List Text)
      → merge_image_overrides valid_overrides m ss ≡ merge valid_overrides (entries m) ss
  unfolding merge_image_overrides
  merge_of none ss = refl
  merge_of (some m) ss = refl

  -- The merge succeeds exactly when every local override reads `a=b` with a known component `a`.
  pub merge_image_overrides_ok_iff :
      (m : Option Overrides) (ss : List Text)
      → ((merged : Overrides) × (merge_image_overrides valid_overrides m ss ≡ ok merged))
        ↔ All IsOverride ss
  merge_image_overrides_ok_iff m ss = (
    λ (merged, e). merge-IsOverride (entries m) ss merged (sym (merge_of m ss) ∙ e),
    λ all. let (merged, e) = merge_total (entries m) ss all in (merged, merge_of m ss ∙ e),
  )

  -- A merge that succeeds maps each component to the URL of the last local override that names it, and
  -- to what it was mapped to before where none does.
  pub lookup-merge_image_overrides :
      (k : Text) (m : Option Overrides) (ss : List Text) (merged : Overrides)
      → merge_image_overrides valid_overrides m ss ≡ ok merged
      → lookup k merged ≡ last_override k (lookup k (entries m)) ss
  lookup-merge_image_overrides k m ss merged e =
      merged_lookup k (entries m) ss merged (sym (merge_of m ss) ∙ e)
