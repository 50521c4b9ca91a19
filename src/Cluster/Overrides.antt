-- ===== src/Cluster/Overrides.antt =====
-- MergeImageOverrides of pkg/cluster/info.go, and pkg/image/repository_info.go.
-- The names of the components and the path of an image come from other modules: parameters.
pub mod Merged
pub mod Tests
use subctl.Base.{
  ℕ, Bool, true, false, List, [], ◌∷◌, Option, none, some, Text, Text_eq, cut, contains, String,
  if◌then◌else◌, codes,
}
use subctl.Base.Dict.{Dict, insert}
use subctl.Base.Effect.{Error, Result, ok, err, new_error}
use subctl.Cluster.Id.{is_empty}

abbrev pub Overrides : Type 0
Overrides = Dict Text Text

abbrev pub equals : ℕ
equals = b'='

abbrev pub invalid_override : Error
invalid_override = new_error "invalid override %s provided. Please use `a=b` syntax"

abbrev pub invalid_component : Error
invalid_component = new_error "invalid image override component %q provided"

module _ (valid_overrides : List Text) where
  -- The loop of MergeImageOverrides over the local overrides.
  unfoldable pub merge : Overrides → List Text → Result Overrides
  merge overrides [] = ok overrides
  merge overrides (s ∷ rest) = elim (cut equals s) [
    | none ↦ err invalid_override
    | some (component, url) ↦ elim (contains valid_overrides component) [
      | false ↦ err invalid_component
      | true ↦ merge (insert component url overrides) rest
    ]
  ]

  -- `none` is the nil map.
  unfoldable pub merge_image_overrides : Option Overrides → List Text → Result Overrides
  merge_image_overrides none overrides = merge [] overrides
  merge_image_overrides (some m) overrides = merge m overrides

pub record RepositoryInfo : Type 0 where
  pub name : Text
  pub version : Text
  pub overrides : Overrides

-- `default_repo` and `default_version` are constants of the operator's API.
unfoldable pub new_repository_info : Text → Text → Text → Text → Overrides → RepositoryInfo
new_repository_info default_repo default_version name version overrides = record {
  name = if is_empty name then default_repo else name;
  version = if is_empty version then default_version else version;
  overrides = overrides;
}

-- GetImageRepositoryInfo: the repository, version and overrides of the deployed Submariner, if any.
unfoldable pub get_image_repository_info :
    (valid_overrides : List Text) (default_repo default_version : Text)
    → Option RepositoryInfo
    → List Text
    → Result RepositoryInfo
unfolding new_repository_info
get_image_repository_info valid_overrides default_repo default_version deployed local =
    elim deployed [
      | none ↦ elim (merge_image_overrides valid_overrides (some []) local) [
        | ok m ↦ ok (new_repository_info default_repo default_version [] [] m)
        | err e ↦ err e
      ]
      | some spec ↦ elim (merge_image_overrides valid_overrides (some spec.overrides) local) [
        | ok m ↦ ok (new_repository_info default_repo default_version spec.name spec.version m)
        | err e ↦ err e
      ]
    ]
