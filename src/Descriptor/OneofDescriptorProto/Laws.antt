-- ===== src/Descriptor/OneofDescriptorProto/Laws.antt =====
-- OneofDescriptorProto of gen/ts/google/protobuf/descriptor.ts: its fields, one by one.
use merkle_proof_service.Descriptor.OneofDescriptorProto.{
  OneofDescriptorProto, OneofDescriptorProtoPartial, base, encode, decode, from_json, to_json,
  from_partial, create, empty, embed, fns,
}
use merkle_proof_service.Descriptor.OneofOptions
use merkle_proof_service.Message.Statements.{List, [], ◌∷◌, Wire, Runtime, map_option, or_present}
use merkle_proof_service.Message.Fields.{
  refl, arith, AllOption, IsLawful, switch, IsRuntime, string_type-IsScalar, Row, Message, free,
  scalar_row, Fitting, message_row, OfRows, rows-Message, IsReadAs, Message-IsReadAs,
}

-- What is read of a message: a field that is `undefined` has its default.
unfoldable pub normal : OneofDescriptorProto → OneofDescriptorProto
normal m = record {
  name = or_present m.name "";
  options = map_option OneofOptions.Laws.normal m.options;
}

-- The values that the fields can hold.
abbrev pub IsValid : Wire → Runtime → OneofDescriptorProto → Type 0
IsValid w rt m =
    AllOption (Fitting (OneofOptions.Laws.IsValid w rt) (OneofOptions.encode w rt)) m.options

module _ (w : Wire) (L : IsLawful w) (rt : Runtime) (R : IsRuntime rt) where
  abbrev pub rows : List (Row w rt OneofDescriptorProto OneofDescriptorProtoPartial)
  rows =
      scalar_row w L rt (string_type-IsScalar w L rt R) 10 (omega arith) "name" (λ m. m.name)
        (λ m v. record m { name = v }) (λ p. p.name)
      ∷ message_row w L (OneofOptions.Laws.OneofOptions-Message w L rt R) 18 (omega arith) "options"
          (λ m. m.options) (λ m v. record m { options = v }) (λ m a b. refl) (λ p. p.options)
      ∷ []

  pub OneofDescriptorProto-OfRows : OfRows (fns w rt) embed normal rows base empty
  unfolding encode decode from_json to_json from_partial create embed normal switch
  OneofDescriptorProto-OfRows = refl

  abbrev pub OneofDescriptorProto-Message :
      Message rt OneofDescriptorProto OneofDescriptorProtoPartial
  OneofDescriptorProto-Message =
      rows-Message L (fns w rt) embed normal rows base empty OneofDescriptorProto-OfRows
        (IsValid w rt) (λ m h. (free m.name, (h, tt)))

-- Over a lawful wire and runtime, every OneofDescriptorProto whose options are valid, of a length
-- below 2 ^ 32, is read as `normal` of it, which has the default for each `undefined`: from its
-- bytes, as a whole buffer and inside a longer one, from its JSON and from its partial form, also
-- by `create`; and `encode` appends to what the writer holds.
pub OneofDescriptorProto-IsReadAs :
    (w : Wire)
    → IsLawful w
    → (rt : Runtime) → IsRuntime rt
    → (m : OneofDescriptorProto) → IsValid w rt m
    → IsReadAs (fns w rt) embed m (normal m)
OneofDescriptorProto-IsReadAs w L rt R m valid =
    Message-IsReadAs R (OneofDescriptorProto-Message w L rt R) m valid
