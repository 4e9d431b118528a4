-- ===== src/Descriptor/FeatureSetVisibilityFeature/Laws.antt =====
-- FeatureSet_VisibilityFeature of gen/ts/google/protobuf/descriptor.ts: its fields, one by one.
use merkle_proof_service.Descriptor.FeatureSetVisibilityFeature.{
  FeatureSetVisibilityFeature, FeatureSetVisibilityFeaturePartial, base, encode, decode, from_json,
  to_json, from_partial, create, empty, embed, fns,
}
use merkle_proof_service.Message.Statements.{List, [], Wire, Runtime}
use merkle_proof_service.Message.Fields.{
  refl, IsLawful, switch, IsRuntime, Row, Message, OfRows, rows-Message,
}

-- What is read of a message: a field that is `undefined` has its default.
unfoldable pub normal : FeatureSetVisibilityFeature → FeatureSetVisibilityFeature
normal m = record {}

-- The values that the fields can hold.
abbrev pub IsValid : Wire → Runtime → FeatureSetVisibilityFeature → Type 0
IsValid w rt m = Unit

module _ (w : Wire) (L : IsLawful w) (rt : Runtime) (R : IsRuntime rt) where
  abbrev pub rows : List (Row w rt FeatureSetVisibilityFeature FeatureSetVisibilityFeaturePartial)
  rows = []

  pub FeatureSetVisibilityFeature-OfRows : OfRows (fns w rt) embed normal rows base empty
  unfolding encode decode from_json to_json from_partial create embed normal switch
  FeatureSetVisibilityFeature-OfRows = refl

  abbrev pub FeatureSetVisibilityFeature-Message :
      Message rt FeatureSetVisibilityFeature FeatureSetVisibilityFeaturePartial
  FeatureSetVisibilityFeature-Message =
      rows-Message L (fns w rt) embed normal rows base empty FeatureSetVisibilityFeature-OfRows
        (IsValid w rt) (λ m h. tt)
