-- ===== src/Cluster/Overrides/Tests.antt =====
-- Image overrides on concrete input.
use subctl.Base.{
  ◌≡◌, refl, List, [], ◌∷◌, none, some, Text, Text_eq, codes, cut, contains, text_eq, All,
}
use subctl.Base.Dict.{lookup, insert}
use subctl.Base.Effect.{ok, err}
use subctl.Cluster.Overrides.{Overrides, merge, merge_image_overrides, invalid_component}
use subctl.Cluster.Overrides.Merged.{
  IsOverride, merge_image_overrides_ok_iff, lookup-merge_image_overrides,
}

abbrev known : List Text
known = codes "submariner-gateway" ∷ codes "submariner-operator" ∷ []

abbrev local : List Text
local = codes "submariner-gateway=a" ∷ codes "submariner-gateway=b=c" ∷ []

abbrev result : Overrides
result = (codes "submariner-gateway", codes "b=c") ∷ []

merged_local : merge_image_overrides known none local ≡ ok result
unfolding merge_image_overrides merge cut contains insert text_eq
merged_local = refl

unknown_component : merge_image_overrides known none (codes "etcd=a" ∷ []) ≡ err invalid_component
unfolding merge_image_overrides merge cut contains text_eq
unknown_component = refl

merge_image_overrides_ok_iff_example : All (IsOverride known) local
merge_image_overrides_ok_iff_example =
    (merge_image_overrides_ok_iff known none local).0 (result, merged_local)

lookup-merge_image_overrides_example :
    lookup (codes "submariner-gateway") result ≡ some (codes "b=c")
unfolding cut text_eq lookup
lookup-merge_image_overrides_example =
    lookup-merge_image_overrides known (codes "submariner-gateway") none local result merged_local
