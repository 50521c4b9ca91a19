-- ===== src/Cluster/Id/Sanitized.antt =====
-- Sanitised IDs are DNS labels, but for their length (pkg/cluster/id.go).
use subctl.Base.{
  ℕ, suc, ◌≡◌, ◌≢◌, ◌≤◌, ◌<◌, refl, ap, ◌∙◌, Bool, true, false, List, [], ◌∷◌, map, Text, nat_eq,
  String, if◌then◌else◌, All, length, arith, Bool-cases, inl, inr,
}
use subctl.Base.Effect.{Result, ok}
use subctl.Cluster.Id.{
  dash, is_compliant, replace_all, fix_head, fix_last, sanitize_id, is_valid_id, is_empty,
  determine_cluster_id,
}

abbrev pub HasCompliant : Text → Type 0
HasCompliant = All (λ c. is_compliant c ≡ true)

-- Where there is a first, or a last, character, it is no dash.
abbrev pub HeadFine : Text → Type 0
HeadFine [] = Unit {0}
HeadFine (c ∷ s) = nat_eq c dash ≡ false

abbrev pub LastFine : Text → Type 0
LastFine [] = Unit {0}
LastFine (c ∷ []) = nat_eq c dash ≡ false
LastFine (c ∷ d ∷ s) = LastFine (d ∷ s)

-- The characters and ends of a DNS label (RFC 1123), of any length.
pub record IsLabelText (s : Text) : Type 0 where
  pub nonempty : s ≢ []
  pub compliant : HasCompliant s
  pub head_fine : HeadFine s
  pub last_fine : LastFine s

-- What the library's validation is documented to do: it accepts the labels of at most 63 characters.
pub record IsDns1123 (is_dns1123_label : Text → List String) : Type 0 where
  pub accepts : (s : Text) → IsLabelText s → length s ≤ 63 → is_dns1123_label s ≡ []
  pub sound : (s : Text) → is_dns1123_label s ≡ [] → IsLabelText s × (length s ≤ 63)

replace_all-HasCompliant : (b : Bool) (s : Text) → HasCompliant (replace_all b s)
unfolding replace_all is_compliant
replace_all-HasCompliant b [] = tt
replace_all-HasCompliant b (c ∷ s) =
    ground (arith, replace_all-HasCompliant false s, replace_all-HasCompliant true s)

replace_all-length : (b : Bool) (s : Text) → length (replace_all b s) ≤ length s
unfolding replace_all
replace_all-length b [] = omega arith
replace_all-length b (c ∷ s) = ground (arith, replace_all-length false s, replace_all-length true s)

replace_all-ne-nil : (c : ℕ) (s : Text) → replace_all false (c ∷ s) ≢ []
unfolding replace_all
replace_all-ne-nil c s = ground arith

fix_head-IsFine :
    (s : Text)
    → HasCompliant s
    → s ≢ []
    → (fix_head s ≢ [])
      × HasCompliant (fix_head s)
      × HeadFine (fix_head s)
      × (length (fix_head s) ≡ length s)
unfolding fix_head is_compliant
fix_head-IsFine [] h ne = absurd (ne refl)
fix_head-IsFine (c ∷ s) h ne = ground arith

fix_last-ne-nil : (s : Text) → s ≢ [] → fix_last s ≢ []
unfolding fix_last
fix_last-ne-nil [] ne = ne
fix_last-ne-nil (c ∷ []) ne = ground arith
fix_last-ne-nil (c ∷ d ∷ s) ne = ground arith

fix_last-HasCompliant : (s : Text) → HasCompliant s → HasCompliant (fix_last s)
unfolding fix_last is_compliant
fix_last-HasCompliant [] h = tt
fix_last-HasCompliant (c ∷ []) h = ground arith
fix_last-HasCompliant (c ∷ d ∷ s) h = (h.0, fix_last-HasCompliant (d ∷ s) h.1)

fix_last-HeadFine : (s : Text) → HeadFine s → HeadFine (fix_last s)
unfolding fix_last
fix_last-HeadFine [] h = tt
fix_last-HeadFine (c ∷ []) h = ground arith
fix_last-HeadFine (c ∷ d ∷ s) h = h

LastFine-cons : (c : ℕ) (s : Text) → s ≢ [] → LastFine s → LastFine (c ∷ s)
LastFine-cons c [] ne h = absurd (ne refl)
LastFine-cons c (d ∷ s) ne h = h

fix_last-LastFine : (s : Text) → LastFine (fix_last s)
unfolding fix_last
fix_last-LastFine [] = tt
fix_last-LastFine (c ∷ []) = elim (Bool-cases (nat_eq c dash)) [
  | inl e ↦ rw e refl
  | inr e ↦ rw e e
]
fix_last-LastFine (c ∷ d ∷ s) =
    LastFine-cons c _ (fix_last-ne-nil (d ∷ s) (ground arith)) (fix_last-LastFine (d ∷ s))

fix_last-length : (s : Text) → length (fix_last s) ≡ length s
unfolding fix_last
fix_last-length [] = refl
fix_last-length (c ∷ []) = ground arith
fix_last-length (c ∷ d ∷ s) = ap suc (fix_last-length (d ∷ s))

-- Whatever the mapping to lower case is, the sanitised form of an ID that is not empty has the
-- characters and the ends of a DNS label.
pub sanitize_id-IsLabelText :
    (lower : ℕ → ℕ) (c : ℕ) (s : Text) → IsLabelText (sanitize_id lower (c ∷ s))
unfolding sanitize_id
sanitize_id-IsLabelText lower c s =
    let replaced = replace_all false (map lower (c ∷ s)) in
    let (filled, compliant, fine, _) =
      fix_head-IsFine replaced (replace_all-HasCompliant false (map lower (c ∷ s)))
        (replace_all-ne-nil (lower c) (map lower s)) in
    record {
      nonempty = fix_last-ne-nil (fix_head replaced) filled;
      compliant = fix_last-HasCompliant (fix_head replaced) compliant;
      head_fine = fix_last-HeadFine (fix_head replaced) fine;
      last_fine = fix_last-LastFine (fix_head replaced);
    }

length-map_lower : (lower : ℕ → ℕ) (s : Text) → length (map lower s) ≡ length s
length-map_lower lower [] = refl
length-map_lower lower (c ∷ s) = ap suc (length-map_lower lower s)

pub sanitize_id-length : (lower : ℕ → ℕ) (s : Text) → length (sanitize_id lower s) ≤ length s
unfolding sanitize_id
sanitize_id-length lower [] = omega arith
sanitize_id-length lower (c ∷ s) =
    let replaced = replace_all false (map lower (c ∷ s)) in
    let (_, _, _, same) =
      fix_head-IsFine replaced (replace_all-HasCompliant false (map lower (c ∷ s)))
        (replace_all-ne-nil (lower c) (map lower s)) in
    omega (
      arith,
      same,
      fix_last-length (fix_head replaced),
      replace_all-length false (map lower (c ∷ s)),
      length-map_lower lower (c ∷ s),
    )

module _ (is_dns1123_label : Text → List String) (dns : IsDns1123 is_dns1123_label) where
  accepted : (s : Text) → is_dns1123_label s ≡ [] → is_valid_id is_dns1123_label s ≡ true
  unfolding is_valid_id
  accepted s e = rw (e, is_valid_id)

  rejected :
      (s : Text) (r : List String)
      → is_dns1123_label s ≡ r
      → 63 < length s
      → is_valid_id is_dns1123_label s ≡ false
  unfolding is_valid_id
  rejected s [] e h = absurd (omega (arith, (dns.sound s e).1))
  rejected s (_ ∷ _) e h = rw (e, is_valid_id)

  -- The sanitised form of an ID of 1 to 63 characters is valid, as IsValidID sees it.
  pub sanitize_id-is_valid_id :
      (lower : ℕ → ℕ) (c : ℕ) (s : Text)
      → length (c ∷ s) ≤ 63
      → is_valid_id is_dns1123_label (sanitize_id lower (c ∷ s)) ≡ true
  sanitize_id-is_valid_id lower c s h = accepted _ (
      dns.accepts _ (sanitize_id-IsLabelText lower c s)
        (omega (arith, sanitize_id-length lower (c ∷ s))))

is_empty_not : (s : Text) → s ≢ [] → is_empty s ≡ false
unfolding is_empty
is_empty_not [] ne = absurd (ne refl)
is_empty_not (_ ∷ _) ne = refl

-- The unicode mapping leaves the characters of a label alone.
abbrev pub FixesCompliant : (ℕ → ℕ) → Type 0
FixesCompliant lower = (c : ℕ) → is_compliant c ≡ true → lower c ≡ c

module _ (lower : ℕ → ℕ) (fixes : FixesCompliant lower) where
  replace_all_same : (s : Text) → HasCompliant s → replace_all false (map lower s) ≡ s
  unfolding replace_all
  replace_all_same [] h = refl
  replace_all_same (c ∷ s) h = rw (fixes c h.0, h.0) (ap (◌∷◌ c) (replace_all_same s h.1))

  fix_head_same : (s : Text) → HeadFine s → fix_head s ≡ s
  unfolding fix_head
  fix_head_same [] h = refl
  fix_head_same (c ∷ s) h = rw h

  fix_last_same : (s : Text) → LastFine s → fix_last s ≡ s
  unfolding fix_last
  fix_last_same [] h = refl
  fix_last_same (c ∷ []) h = rw h
  fix_last_same (c ∷ d ∷ s) h = ap (◌∷◌ c) (fix_last_same (d ∷ s) h)

  -- Sanitising changes no label, and so sanitising twice is sanitising once.
  pub sanitize_id_same : (s : Text) → IsLabelText s → sanitize_id lower s ≡ s
  unfolding sanitize_id
  sanitize_id_same [] l = refl
  sanitize_id_same (c ∷ s) l =
      ap (λ t. fix_last (fix_head t)) (replace_all_same (c ∷ s) l.compliant)
      ∙ ap fix_last (fix_head_same (c ∷ s) l.head_fine)
      ∙ fix_last_same (c ∷ s) l.last_fine

  -- The length is not repaired: a label of more than 63 characters stays invalid when it is sanitised.
  pub sanitize_id_too_long :
      (is_dns1123_label : Text → List String) (s : Text)
      → IsDns1123 is_dns1123_label
      → IsLabelText s
      → 63 < length s
      → is_valid_id is_dns1123_label (sanitize_id lower s) ≡ false
  sanitize_id_too_long is_dns1123_label s dns l h =
      rw (sanitize_id_same s l) (rejected is_dns1123_label dns s (is_dns1123_label s) refl h)

module _ (lower : ℕ → ℕ) (is_dns1123_label : Text → List String) where
  -- An ID that is not asked for is valid; so every cluster joins under a valid ID if the prompt accepts
  -- only valid ones.
  pub determine_cluster_id-is_valid_id :
      (flag cluster_name : Text) (answer : Result Text)
      → ((t : Text) → answer ≡ ok t → is_valid_id is_dns1123_label t ≡ true)
      → (id : Text)
      → (determine_cluster_id lower is_dns1123_label flag cluster_name answer).0 ≡ ok id
      → is_valid_id is_dns1123_label id ≡ true
  unfolding determine_cluster_id
  determine_cluster_id-is_valid_id flag cluster_name answer h id e = ground (arith, h id)

  -- Where no ID is given and the name of the cluster has 1 to 63 characters, the user is not asked: the
  -- ID is the name itself if that is valid, and its sanitised form if not.
  pub determine_cluster_id_unasked :
      IsDns1123 is_dns1123_label
      → (c : ℕ) (s : Text) (answer : Result Text) → length (c ∷ s) ≤ 63
      → determine_cluster_id lower is_dns1123_label [] (c ∷ s) answer ≡ (
        ok (if is_valid_id is_dns1123_label (c ∷ s) then c ∷ s else sanitize_id lower (c ∷ s)),
        false,
      )
  unfolding determine_cluster_id is_empty
  determine_cluster_id_unasked dns c s answer h =
      elim (Bool-cases (is_valid_id is_dns1123_label (c ∷ s))) [
        | inl e ↦ rw (e, e)
        | inr e ↦ rw (
          e,
          is_empty_not _ (sanitize_id-IsLabelText lower c s).nonempty,
          sanitize_id-is_valid_id is_dns1123_label dns lower c s h,
        )
      ]
