-- ===== src/Descriptor/MessageOptions/Laws.antt =====
-- MessageOptions of gen/ts/google/protobuf/descriptor.ts: its fields, one by one.
use merkle_proof_service.Descriptor.MessageOptions.{
  MessageOptions, MessageOptionsPartial, base, encode, decode, from_json, to_json, from_partial,
  create, empty, embed, fns,
}
use merkle_proof_service.Descriptor.FeatureSet
use merkle_proof_service.Descriptor.UninterpretedOption
use merkle_proof_service.Message.Statements.{
  false, List, [], ◌∷◌, map, Wire, Runtime, map_option, or_present,
}
use merkle_proof_service.Message.Fields.{
  refl, arith, All, AllOption, IsLawful, switch, IsRuntime, bool_type-IsScalar, Row, Message, free,
  scalar_row, Fitting, message_row, messages_row, OfRows, rows-Message, IsReadAs, Message-IsReadAs,
}

-- What is read of a message: a field that is `undefined` has its default.
unfoldable pub normal : MessageOptions → MessageOptions
normal m = record {
  message_set_wire_format = or_present m.message_set_wire_format false;
  no_standard_descriptor_accessor = or_present m.no_standard_descriptor_accessor false;
  deprecated = or_present m.deprecated false;
  map_entry = or_present m.map_entry false;
  deprecated_legacy_json_field_conflicts =
      or_present m.deprecated_legacy_json_field_conflicts false;
  features = map_option FeatureSet.Laws.normal m.features;
  uninterpreted_option = map UninterpretedOption.Laws.normal m.uninterpreted_option;
}

-- The values that the fields can hold.
abbrev pub IsValid : Wire → Runtime → MessageOptions → Type 0
IsValid w rt m =
    (AllOption (Fitting (FeatureSet.Laws.IsValid w rt) (FeatureSet.encode w rt)) m.features)
    × (All (Fitting (UninterpretedOption.Laws.IsValid w rt) (UninterpretedOption.encode w rt))
        m.uninterpreted_option)

module _ (w : Wire) (L : IsLawful w) (rt : Runtime) (R : IsRuntime rt) where
  abbrev pub rows : List (Row w rt MessageOptions MessageOptionsPartial)
  rows =
      scalar_row w L rt (bool_type-IsScalar w L rt R false) 8 (omega arith) "messageSetWireFormat"
        (λ m. m.message_set_wire_format) (λ m v. record m { message_set_wire_format = v })
        (λ p. p.message_set_wire_format)
      ∷ scalar_row w L rt (bool_type-IsScalar w L rt R false) 16 (omega arith)
          "noStandardDescriptorAccessor" (λ m. m.no_standard_descriptor_accessor)
          (λ m v. record m { no_standard_descriptor_accessor = v })
          (λ p. p.no_standard_descriptor_accessor)
      ∷ scalar_row w L rt (bool_type-IsScalar w L rt R false) 24 (omega arith) "deprecated"
          (λ m. m.deprecated) (λ m v. record m { deprecated = v }) (λ p. p.deprecated)
      ∷ scalar_row w L rt (bool_type-IsScalar w L rt R false) 56 (omega arith) "mapEntry"
          (λ m. m.map_entry) (λ m v. record m { map_entry = v }) (λ p. p.map_entry)
      ∷ scalar_row w L rt (bool_type-IsScalar w L rt R false) 88 (omega arith)
          "deprecatedLegacyJsonFieldConflicts" (λ m. m.deprecated_legacy_json_field_conflicts)
          (λ m v. record m { deprecated_legacy_json_field_conflicts = v })
          (λ p. p.deprecated_legacy_json_field_conflicts)
      ∷ message_row w L (FeatureSet.Laws.FeatureSet-Message w L rt R) 98 (omega arith) "features"
          (λ m. m.features) (λ m v. record m { features = v }) (λ m a b. refl) (λ p. p.features)
      ∷ messages_row w L (UninterpretedOption.Laws.UninterpretedOption-Message w L rt R) 7994
          (omega arith) "uninterpretedOption" (λ m. m.uninterpreted_option)
          (λ m v. record m { uninterpreted_option = v }) (λ m a b. refl)
          (λ p. p.uninterpreted_option)
      ∷ []

  pub MessageOptions-OfRows : OfRows (fns w rt) embed normal rows base empty
  unfolding encode decode from_json to_json from_partial create embed normal switch
  MessageOptions-OfRows = refl

  abbrev pub MessageOptions-Message : Message rt MessageOptions MessageOptionsPartial
  MessageOptions-Message =
      rows-Message L (fns w rt) embed normal rows base empty MessageOptions-OfRows (IsValid w rt)
        (λ m h. (
          free m.message_set_wire_format,
          (
            free m.no_standard_descriptor_accessor,
            (
              free m.deprecated,
              (free m.map_entry, (free m.deprecated_legacy_json_field_conflicts, (h.0, (h.1, tt)))),
            ),
          ),
        ))

-- Over a lawful wire and runtime, every MessageOptions whose features and uninterpreted options are
-- valid, of lengths below 2 ^ 32, is read as `normal` of it, which has the default for each
-- `undefined`: from its bytes, as a whole buffer and inside a longer one, from its JSON and from
-- its partial form, also by `create`; and `encode` appends to what the writer holds.
pub MessageOptions-IsReadAs :
    (w : Wire)
    → IsLawful w
    → (rt : Runtime) → IsRuntime rt
    → (m : MessageOptions) → IsValid w rt m
    → IsReadAs (fns w rt) embed m (normal m)
MessageOptions-IsReadAs w L rt R m valid =
    Message-IsReadAs R (MessageOptions-Message w L rt R) m valid
