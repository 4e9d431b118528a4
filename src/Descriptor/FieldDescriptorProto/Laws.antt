-- ===== src/Descriptor/FieldDescriptorProto/Laws.antt =====
-- FieldDescriptorProto of gen/ts/google/protobuf/descriptor.ts: its fields, one by one.
use merkle_proof_service.Descriptor.FieldDescriptorProto.{
  FieldDescriptorProto, FieldDescriptorProtoPartial, base, encode, decode, from_json, to_json,
  from_partial, create, empty, embed, fns,
}
use merkle_proof_service.Descriptor.FieldOptions
use merkle_proof_service.Descriptor.Enums.FieldDescriptorProtoLabel
use merkle_proof_service.Descriptor.Enums.FieldDescriptorProtoType
use merkle_proof_service.Message.Statements.{
  pos, false, List, [], ◌∷◌, Wire, Runtime, map_option, or_present,
}
use merkle_proof_service.Message.Fields.{
  refl, arith, ◌^◌, IsWithin, AllOption, IsLawful, switch, IsRuntime, string_type-IsScalar,
  bool_type-IsScalar, int32_type-IsScalar, member_type-IsScalar, Row, Message, free, scalar_row,
  Fitting, message_row, OfRows, rows-Message, IsMember, IsReadAs, Message-IsReadAs,
}

-- What is read of a message: a field that is `undefined` has its default.
unfoldable pub normal : FieldDescriptorProto → FieldDescriptorProto
normal m = record {
  name = or_present m.name "";
  number = or_present m.number (pos 0);
  label = or_present m.label (pos 1);
  type = or_present m.type (pos 1);
  type_name = or_present m.type_name "";
  extendee = or_present m.extendee "";
  default_value = or_present m.default_value "";
  oneof_index = or_present m.oneof_index (pos 0);
  json_name = or_present m.json_name "";
  options = map_option FieldOptions.Laws.normal m.options;
  proto3_optional = or_present m.proto3_optional false;
}

-- The values that the fields can hold.
abbrev pub IsValid : Wire → Runtime → FieldDescriptorProto → Type 0
IsValid w rt m =
    (AllOption (IsWithin (2 ^ 31)) m.number)
    × (AllOption (IsMember FieldDescriptorProtoLabel.fns) m.label)
    × (AllOption (IsMember FieldDescriptorProtoType.fns) m.type)
    × (AllOption (IsWithin (2 ^ 31)) m.oneof_index)
    × (AllOption (Fitting (FieldOptions.Laws.IsValid w rt) (FieldOptions.encode w rt)) m.options)

module _ (w : Wire) (L : IsLawful w) (rt : Runtime) (R : IsRuntime rt) where
  abbrev pub rows : List (Row w rt FieldDescriptorProto FieldDescriptorProtoPartial)
  rows =
      scalar_row w L rt (string_type-IsScalar w L rt R) 10 (omega arith) "name" (λ m. m.name)
        (λ m v. record m { name = v }) (λ p. p.name)
      ∷ scalar_row w L rt (int32_type-IsScalar w L rt R) 24 (omega arith) "number" (λ m. m.number)
          (λ m v. record m { number = v }) (λ p. p.number)
      ∷ scalar_row w L rt
          (member_type-IsScalar w L rt R FieldDescriptorProtoLabel.unrecognized
            FieldDescriptorProtoLabel.fns FieldDescriptorProtoLabel.FieldDescriptorProtoLabel-IsEnum
            1)
          32 (omega arith) "label" (λ m. m.label) (λ m v. record m { label = v }) (λ p. p.label)
      ∷ scalar_row w L rt
          (member_type-IsScalar w L rt R FieldDescriptorProtoType.unrecognized
            FieldDescriptorProtoType.fns FieldDescriptorProtoType.FieldDescriptorProtoType-IsEnum 1)
          40 (omega arith) "type" (λ m. m.type) (λ m v. record m { type = v }) (λ p. p.type)
      ∷ scalar_row w L rt (string_type-IsScalar w L rt R) 50 (omega arith) "typeName"
          (λ m. m.type_name) (λ m v. record m { type_name = v }) (λ p. p.type_name)
      ∷ scalar_row w L rt (string_type-IsScalar w L rt R) 18 (omega arith) "extendee"
          (λ m. m.extendee) (λ m v. record m { extendee = v }) (λ p. p.extendee)
      ∷ scalar_row w L rt (string_type-IsScalar w L rt R) 58 (omega arith) "defaultValue"
          (λ m. m.default_value) (λ m v. record m { default_value = v }) (λ p. p.default_value)
      ∷ scalar_row w L rt (int32_type-IsScalar w L rt R) 72 (omega arith) "oneofIndex"
          (λ m. m.oneof_index) (λ m v. record m { oneof_index = v }) (λ p. p.oneof_index)
      ∷ scalar_row w L rt (string_type-IsScalar w L rt R) 82 (omega arith) "jsonName"
          (λ m. m.json_name) (λ m v. record m { json_name = v }) (λ p. p.json_name)
      ∷ message_row w L (FieldOptions.Laws.FieldOptions-Message w L rt R) 66 (omega arith) "options"
          (λ m. m.options) (λ m v. record m { options = v }) (λ m a b. refl) (λ p. p.options)
      ∷ scalar_row w L rt (bool_type-IsScalar w L rt R false) 136 (omega arith) "proto3Optional"
          (λ m. m.proto3_optional) (λ m v. record m { proto3_optional = v })
          (λ p. p.proto3_optional)
      ∷ []

  pub FieldDescriptorProto-OfRows : OfRows (fns w rt) embed normal rows base empty
  unfolding encode decode from_json to_json from_partial create embed normal switch
  FieldDescriptorProto-OfRows = refl

  abbrev pub FieldDescriptorProto-Message :
      Message rt FieldDescriptorProto FieldDescriptorProtoPartial
  FieldDescriptorProto-Message =
      rows-Message L (fns w rt) embed normal rows base empty FieldDescriptorProto-OfRows
        (IsValid w rt)
        (λ m h. (
          free m.name,
          (
            h.0,
            (
              h.1,
              (
                h.2,
                (
                  free m.type_name,
                  (
                    free m.extendee,
                    (
                      free m.default_value,
                      (h.3, (free m.json_name, (h.4, (free m.proto3_optional, tt)))),
                    ),
                  ),
                ),
              ),
            ),
          ),
        ))

-- Over a lawful wire and runtime, every FieldDescriptorProto whose number and oneofIndex are
-- int32s, whose label and type are numbers of their enums, and whose options are valid, of a length
-- below 2 ^ 32, is read as `normal` of it, which has the default for each `undefined`: from its
-- bytes, as a whole buffer and inside a longer one, from its JSON and from its partial form, also
-- by `create`; and `encode` appends to what the writer holds.
pub FieldDescriptorProto-IsReadAs :
    (w : Wire)
    → IsLawful w
    → (rt : Runtime) → IsRuntime rt
    → (m : FieldDescriptorProto) → IsValid w rt m
    → IsReadAs (fns w rt) embed m (normal m)
FieldDescriptorProto-IsReadAs w L rt R m valid =
    Message-IsReadAs R (FieldDescriptorProto-Message w L rt R) m valid
