-- ===== src/Descriptor/FeatureSetDefaults/Laws.antt =====
-- FeatureSetDefaults of gen/ts/google/protobuf/descriptor.ts: its fields, one by one.
use merkle_proof_service.Descriptor.FeatureSetDefaults.{
  FeatureSetDefaults, FeatureSetDefaultsPartial, base, encode, decode, from_json, to_json,
  from_partial, create, empty, embed, fns,
}
use merkle_proof_service.Descriptor.FeatureSetDefaultsFeatureSetEditionDefault
use merkle_proof_service.Descriptor.Enums.Edition
use merkle_proof_service.Message.Statements.{pos, List, [], ◌∷◌, map, Wire, Runtime, or_present}
use merkle_proof_service.Message.Fields.{
  refl, arith, All, AllOption, IsLawful, switch, IsRuntime, member_type-IsScalar, Row, Message,
  scalar_row, Fitting, messages_row, OfRows, rows-Message, IsMember, IsReadAs, Message-IsReadAs,
}

-- What is read of a message: a field that is `undefined` has its default.
unfoldable pub normal : FeatureSetDefaults → FeatureSetDefaults
normal m = record {
  defaults = map FeatureSetDefaultsFeatureSetEditionDefault.Laws.normal m.defaults;
  minimum_edition = or_present m.minimum_edition (pos 0);
  maximum_edition = or_present m.maximum_edition (pos 0);
}

-- The values that the fields can hold.
abbrev pub IsValid : Wire → Runtime → FeatureSetDefaults → Type 0
IsValid w rt m =
    (All
      (Fitting (FeatureSetDefaultsFeatureSetEditionDefault.Laws.IsValid w rt)
        (FeatureSetDefaultsFeatureSetEditionDefault.encode w rt))
      m.defaults)
    × (AllOption (IsMember Edition.fns) m.minimum_edition)
    × (AllOption (IsMember Edition.fns) m.maximum_edition)

module _ (w : Wire) (L : IsLawful w) (rt : Runtime) (R : IsRuntime rt) where
  abbrev pub rows : List (Row w rt FeatureSetDefaults FeatureSetDefaultsPartial)
  rows =
      messages_row w L
        (FeatureSetDefaultsFeatureSetEditionDefault.Laws.FeatureSetDefaultsFeatureSetEditionDefault-Message
          w L rt R)
        10 (omega arith) "defaults" (λ m. m.defaults) (λ m v. record m { defaults = v })
        (λ m a b. refl) (λ p. p.defaults)
      ∷ scalar_row w L rt
          (member_type-IsScalar w L rt R Edition.unrecognized Edition.fns Edition.Edition-IsEnum 0)
          32 (omega arith) "minimumEdition" (λ m. m.minimum_edition)
          (λ m v. record m { minimum_edition = v }) (λ p. p.minimum_edition)
      ∷ scalar_row w L rt
          (member_type-IsScalar w L rt R Edition.unrecognized Edition.fns Edition.Edition-IsEnum 0)
          40 (omega arith) "maximumEdition" (λ m. m.maximum_edition)
          (λ m v. record m { maximum_edition = v }) (λ p. p.maximum_edition)
      ∷ []

  pub FeatureSetDefaults-OfRows : OfRows (fns w rt) embed normal rows base empty
  unfolding encode decode from_json to_json from_partial create embed normal switch
  FeatureSetDefaults-OfRows = refl

  abbrev pub FeatureSetDefaults-Message : Message rt FeatureSetDefaults FeatureSetDefaultsPartial
  FeatureSetDefaults-Message =
      rows-Message L (fns w rt) embed normal rows base empty FeatureSetDefaults-OfRows
        (IsValid w rt) (λ m h. (h.0, (h.1, (h.2, tt))))

-- Over a lawful wire and runtime, every FeatureSetDefaults whose defaults are valid, of lengths
-- below 2 ^ 32, and whose editions are numbers of their enum, is read as `normal` of it, which has
-- the default for each `undefined`: from its bytes, as a whole buffer and inside a longer one, from
-- its JSON and from its partial form, also by `create`; and `encode` appends to what the writer
-- holds.
pub FeatureSetDefaults-IsReadAs :
    (w : Wire)
    → IsLawful w
    → (rt : Runtime) → IsRuntime rt
    → (m : FeatureSetDefaults) → IsValid w rt m
    → IsReadAs (fns w rt) embed m (normal m)
FeatureSetDefaults-IsReadAs w L rt R m valid =
    Message-IsReadAs R (FeatureSetDefaults-Message w L rt R) m valid
