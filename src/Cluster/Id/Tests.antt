-- ===== src/Cluster/Id/Tests.antt =====
-- The cases of pkg/cluster/id_test.go, and the theorems at such IDs.
use subctl.Base.{
  ℕ, ◌+◌, ◌≡◌, refl, Bool, true, false, ◌&&◌, List, [], ◌∷◌, Text, String, codes, leb,
  if◌then◌else◌, arith, length,
}
use subctl.Base.{◌≢◌, ◌↔◌, ◌≤◌, not, nat_eq}
use subctl.Base.Effect.{ok, err, new_error}
use subctl.Cluster.Id.{
  is_valid_id, determine_cluster_id, default_id, is_empty, dash, is_compliant, replace_all,
  fix_head, fix_last, sanitize_id, is_valid_id, determine_cluster_id, dash,
}
use subctl.Cluster.Id.Sanitized.{
  HasCompliant, HeadFine, LastFine, IsDns1123, sanitize_id-is_valid_id, sanitize_id_too_long,
  determine_cluster_id-is_valid_id, determine_cluster_id_unasked, IsLabelText,
  sanitize_id-IsLabelText, sanitize_id_same, FixesCompliant,
}

abbrev ascii_lower : ℕ → ℕ
ascii_lower c = if leb b'A' c && leb c b'Z' then c + 32 else c

sanitize : String → Text
unfolding sanitize_id replace_all is_compliant fix_head fix_last
sanitize s = sanitize_id ascii_lower (codes s)

mixed_case : sanitize "a1-B2-c3-D4" ≡ codes "a1-b2-c3-d4"
unfolding sanitize
mixed_case = refl

runs_of_others : sanitize "@abc!@#123@" ≡ codes "0abc-1230"
unfolding sanitize
runs_of_others = refl

only_others : sanitize ".@#$_" ≡ codes "0"
unfolding sanitize
only_others = refl

ascii_lower-FixesCompliant : FixesCompliant ascii_lower
unfolding is_compliant
ascii_lower-FixesCompliant c h = ground arith

-- The library's validation as its documentation states it.
all_compliant : Text → Bool
all_compliant [] = true
all_compliant (c ∷ s) = is_compliant c && all_compliant s

head_fine : Text → Bool
head_fine [] = false
head_fine (c ∷ s) = not (nat_eq c dash)

last_fine : Text → Bool
last_fine [] = false
last_fine (c ∷ []) = not (nat_eq c dash)
last_fine (c ∷ d ∷ s) = last_fine (d ∷ s)

label_complaints : Text → List String
label_complaints s =
    if all_compliant s && head_fine s && last_fine s && leb (length s) 63
    then []
    else "a lowercase RFC 1123 label must consist of …" ∷ []

all_compliant_iff : (s : Text) → (all_compliant s ≡ true) ↔ HasCompliant s
unfolding all_compliant
all_compliant_iff [] = (λ h. tt, λ h. refl)
all_compliant_iff (c ∷ s) =
    (λ h. ground (arith, (all_compliant_iff s).0), λ h. ground (arith, (all_compliant_iff s).1 h.1))

head_fine_iff : (s : Text) → (head_fine s ≡ true) ↔ ((s ≢ []) × HeadFine s)
unfolding head_fine
head_fine_iff [] = (λ h. cc, λ h. absurd (h.0 refl))
head_fine_iff (c ∷ s) = (λ h. ground arith, λ h. ground arith)

last_fine_lem : (s : Text) → last_fine s ≡ true → LastFine s
unfolding last_fine
last_fine_lem [] h = tt
last_fine_lem (c ∷ []) h = ground arith
last_fine_lem (c ∷ d ∷ s) h = last_fine_lem (d ∷ s) h

last_fine_of : (s : Text) → s ≢ [] → LastFine s → last_fine s ≡ true
unfolding last_fine
last_fine_of [] ne h = absurd (ne refl)
last_fine_of (c ∷ []) ne h = ground arith
last_fine_of (c ∷ d ∷ s) ne h = last_fine_of (d ∷ s) (ground arith) h

label_complaints_sound : (s : Text) → label_complaints s ≡ [] → IsLabelText s × (length s ≤ 63)
unfolding label_complaints
label_complaints_sound s h =
    let (a, b, c, d) = parts in
    (
      record {
        nonempty = ((head_fine_iff s).0 b).0;
        compliant = (all_compliant_iff s).0 a;
        head_fine = ((head_fine_iff s).0 b).1;
        last_fine = last_fine_lem s c;
      },
      d,
    )
  where
    parts : (all_compliant s ≡ true) × (head_fine s ≡ true) × (last_fine s ≡ true) × (length s ≤ 63)
    parts = ground arith

label_complaints-IsDns1123 : IsDns1123 label_complaints
unfolding label_complaints
label_complaints-IsDns1123 = record {
  accepts = λ s l n. ground (
    arith,
    (all_compliant_iff s).1 l.compliant,
    (head_fine_iff s).1 (l.nonempty, l.head_fine),
    last_fine_of s l.nonempty l.last_fine,
  );
  sound = label_complaints_sound;
}

sanitize_id-IsLabelText_example : IsLabelText (sanitize "-a.B")
unfolding sanitize
sanitize_id-IsLabelText_example = sanitize_id-IsLabelText ascii_lower b'-' (codes "a.B")

sanitize_id-is_valid_id_example : is_valid_id label_complaints (sanitize "-a.B") ≡ true
unfolding sanitize
sanitize_id-is_valid_id_example =
    sanitize_id-is_valid_id label_complaints label_complaints-IsDns1123 ascii_lower b'-'
      (codes "a.B") (omega arith)

label : IsLabelText (codes "a-1")
unfolding is_compliant
label = record {
  nonempty = ground arith;
  compliant = (refl, (refl, (refl, tt)));
  head_fine = refl;
  last_fine = refl;
}

sanitize_id_same_example : sanitize "a-1" ≡ codes "a-1"
unfolding sanitize
sanitize_id_same_example =
    sanitize_id_same ascii_lower ascii_lower-FixesCompliant (codes "a-1") label

abbrev long_name : Text
long_name = codes "0123456789012345678901234567890123456789012345678901234567890123"

long_label : IsLabelText long_name
unfolding label_complaints all_compliant head_fine last_fine is_compliant
long_label = record {
  nonempty = ground arith;
  compliant = (all_compliant_iff long_name).0 refl;
  head_fine = refl;
  last_fine = refl;
}

sanitize_id_too_long_example :
    is_valid_id label_complaints (sanitize_id ascii_lower long_name) ≡ false
sanitize_id_too_long_example =
    sanitize_id_too_long ascii_lower ascii_lower-FixesCompliant label_complaints long_name
      label_complaints-IsDns1123 long_label (omega arith)

determine_cluster_id-is_valid_id_example : is_valid_id label_complaints (codes "a-b") ≡ true
unfolding determine_cluster_id default_id is_empty is_valid_id sanitize label_complaints
    all_compliant head_fine last_fine
determine_cluster_id-is_valid_id_example =
    determine_cluster_id-is_valid_id ascii_lower label_complaints [] (codes "A.b")
      (err (new_error "interrupt")) (λ t e. cc) (codes "a-b") refl

determine_cluster_id_unasked_example :
    determine_cluster_id ascii_lower label_complaints [] (codes "A.b") (err (new_error "interrupt"))
    ≡ (ok (codes "a-b"), false)
unfolding is_valid_id sanitize label_complaints all_compliant head_fine last_fine
determine_cluster_id_unasked_example =
    determine_cluster_id_unasked ascii_lower label_complaints label_complaints-IsDns1123 b'A'
      (codes ".b") (err (new_error "interrupt")) (omega arith)
