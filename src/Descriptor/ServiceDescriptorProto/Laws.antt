-- ===== src/Descriptor/ServiceDescriptorProto/Laws.antt =====
-- ServiceDescriptorProto of gen/ts/google/protobuf/descriptor.ts: its fields, one by one.
use merkle_proof_service.Descriptor.ServiceDescriptorProto.{
  ServiceDescriptorProto, ServiceDescriptorProtoPartial, base, encode, decode, from_json, to_json,
  from_partial, create, empty, embed, fns,
}
use merkle_proof_service.Descriptor.MethodDescriptorProto
use merkle_proof_service.Descriptor.ServiceOptions
use merkle_proof_service.Message.Statements.{
  List, [], ◌∷◌, map, Wire, Runtime, map_option, or_present,
}
use merkle_proof_service.Message.Fields.{
  refl, arith, All, AllOption, IsLawful, switch, IsRuntime, string_type-IsScalar, Row, Message,
  free, scalar_row, Fitting, message_row, messages_row, OfRows, rows-Message, IsReadAs,
  Message-IsReadAs,
}

-- What is read of a message: a field that is `undefined` has its default.
unfoldable pub normal : ServiceDescriptorProto → ServiceDescriptorProto
normal m = record {
  name = or_present m.name "";
  method = map MethodDescriptorProto.Laws.normal m.method;
  options = map_option ServiceOptions.Laws.normal m.options;
}

-- The values that the fields can hold.
abbrev pub IsValid : Wire → Runtime → ServiceDescriptorProto → Type 0
IsValid w rt m =
    (All (Fitting (MethodDescriptorProto.Laws.IsValid w rt) (MethodDescriptorProto.encode w rt))
      m.method)
    × (AllOption (Fitting (ServiceOptions.Laws.IsValid w rt) (ServiceOptions.encode w rt))
        m.options)

module _ (w : Wire) (L : IsLawful w) (rt : Runtime) (R : IsRuntime rt) where
  abbrev pub rows : List (Row w rt ServiceDescriptorProto ServiceDescriptorProtoPartial)
  rows =
      scalar_row w L rt (string_type-IsScalar w L rt R) 10 (omega arith) "name" (λ m. m.name)
        (λ m v. record m { name = v }) (λ p. p.name)
      ∷ messages_row w L (MethodDescriptorProto.Laws.MethodDescriptorProto-Message w L rt R) 18
          (omega arith) "method" (λ m. m.method) (λ m v. record m { method = v }) (λ m a b. refl)
          (λ p. p.method)
      ∷ message_row w L (ServiceOptions.Laws.ServiceOptions-Message w L rt R) 26 (omega arith)
          "options" (λ m. m.options) (λ m v. record m { options = v }) (λ m a b. refl)
          (λ p. p.options)
      ∷ []

  pub ServiceDescriptorProto-OfRows : OfRows (fns w rt) embed normal rows base empty
  unfolding encode decode from_json to_json from_partial create embed normal switch
  ServiceDescriptorProto-OfRows = refl

  abbrev pub ServiceDescriptorProto-Message :
      Message rt ServiceDescriptorProto ServiceDescriptorProtoPartial
  ServiceDescriptorProto-Message =
      rows-Message L (fns w rt) embed normal rows base empty ServiceDescriptorProto-OfRows
        (IsValid w rt) (λ m h. (free m.name, (h.0, (h.1, tt))))

-- Over a lawful wire and runtime, every ServiceDescriptorProto whose methods and options are valid,
-- of lengths below 2 ^ 32, is read as `normal` of it, which has the default for each `undefined`:
-- from its bytes, as a whole buffer and inside a longer one, from its JSON and from its partial
-- form, also by `create`; and `encode` appends to what the writer holds.
pub ServiceDescriptorProto-IsReadAs :
    (w : Wire)
    → IsLawful w
    → (rt : Runtime) → IsRuntime rt
    → (m : ServiceDescriptorProto) → IsValid w rt m
    → IsReadAs (fns w rt) embed m (normal m)
ServiceDescriptorProto-IsReadAs w L rt R m valid =
    Message-IsReadAs R (ServiceDescriptorProto-Message w L rt R) m valid
