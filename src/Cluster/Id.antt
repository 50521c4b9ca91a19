-- ===== src/Cluster/Id.antt =====
-- pkg/cluster/id.go, and determineClusterID of cmd/subctl/join.go.
-- A text is the list of its characters. `lower` is the mapping of unicode.ToLower, by which
-- strings.ToLower changes each character; `is_dns1123_label` is the library's validation, which answers
-- with the list of its complaints.
pub mod Sanitized
pub mod Tests
use subctl.Base.{
  ℕ, Bool, true, false, ◌&&◌, ◌||◌, List, [], ◌∷◌, map, Text, leb, nat_eq, String, if◌then◌else◌,
  All, length,
}
use subctl.Base.Effect.{Error, Result, ok, err}

abbrev pub dash : ℕ
dash = b'-'

-- rfc1123Compliant
abbrev pub rfc1123_compliant : ℕ
rfc1123_compliant = b'0'

-- `[a-z0-9-]`
unfoldable pub is_compliant : ℕ → Bool
is_compliant c = leb b'a' c && leb c b'z' || leb b'0' c && leb c b'9' || nat_eq c dash

-- The replacement of each longest match of `[^a-z0-9-]+` by a dash; `inside` says that the character
-- before belonged to a match.
unfoldable pub replace_all : Bool → Text → Text
replace_all inside [] = []
replace_all inside (c ∷ s) =
    let kept = c ∷ replace_all false s in
    let first = dash ∷ replace_all true s in
    let skipped = replace_all true s in
    if is_compliant c then kept else if inside then skipped else first

-- `if result[0] == '-' { result = rfc1123Compliant + result[1:] }`
unfoldable pub fix_head : Text → Text
fix_head [] = []
fix_head (c ∷ s) = if nat_eq c dash then rfc1123_compliant ∷ s else c ∷ s

-- The same for the last character.
unfoldable pub fix_last : Text → Text
fix_last [] = []
fix_last (c ∷ []) = if nat_eq c dash then rfc1123_compliant ∷ [] else c ∷ []
fix_last (c ∷ d ∷ s) = c ∷ fix_last (d ∷ s)

unfoldable pub sanitize_id : (ℕ → ℕ) → Text → Text
sanitize_id lower [] = []
sanitize_id lower (c ∷ s) = fix_last (fix_head (replace_all false (map lower (c ∷ s))))

-- `none` where the ID is valid.
unfoldable pub is_valid_id : (Text → List String) → Text → Bool
is_valid_id is_dns1123_label id = elim (is_dns1123_label id) [ [] ↦ true | _ ∷ _ ↦ false ]

unfoldable pub is_empty : Text → Bool
is_empty [] = true
is_empty (_ ∷ _) = false

module _ (lower : ℕ → ℕ) (is_dns1123_label : Text → List String) where
  -- An ID that was not given is derived from the name of the cluster.
  unfoldable pub default_id : Text → Text → Text
  default_id flag cluster_name =
      if is_empty flag
      then if is_valid_id is_dns1123_label cluster_name
        then cluster_name
        else sanitize_id lower cluster_name
      else flag

  -- An ID that is not valid is dropped, and the user is asked where there is none; the flag says that
  -- the invalid ID was reported.
  unfoldable pub determine_cluster_id : Text → Text → Result Text → Result Text × Bool
  unfolding default_id
  determine_cluster_id flag cluster_name answer =
      let id = default_id flag cluster_name in
      if is_empty id
      then (answer, false)
      else if is_valid_id is_dns1123_label id
      then (ok id, false)
      else (answer, true)
