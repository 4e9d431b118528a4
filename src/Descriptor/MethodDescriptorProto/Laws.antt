-- ===== src/Descriptor/MethodDescriptorProto/Laws.antt =====
-- MethodDescriptorProto of gen/ts/google/protobuf/descriptor.ts: its fields, one by one.
use merkle_proof_service.Descriptor.MethodDescriptorProto.{
  MethodDescriptorProto, MethodDescriptorProtoPartial, base, encode, decode, from_json, to_json,
  from_partial, create, empty, embed, fns,
}
use merkle_proof_service.Descriptor.MethodOptions
use merkle_proof_service.Message.Statements.{
  false, List, [], ◌∷◌, Wire, Runtime, map_option, or_present,
}
use merkle_proof_service.Message.Fields.{
  refl, arith, AllOption, IsLawful, switch, IsRuntime, string_type-IsScalar, bool_type-IsScalar,
  Row, Message, free, scalar_row, Fitting, message_row, OfRows, rows-Message,
}

-- What is read of a message: a field that is `undefined` has its default.
unfoldable pub normal : MethodDescriptorProto → MethodDescriptorProto
normal m = record {
  name = or_present m.name "";
  input_type = or_present m.input_type "";
  output_type = or_present m.output_type "";
  options = map_option MethodOptions.Laws.normal m.options;
  client_streaming = or_present m.client_streaming false;
  server_streaming = or_present m.server_streaming false;
}

-- The values that the fields can hold.
abbrev pub IsValid : Wire → Runtime → MethodDescriptorProto → Type 0
IsValid w rt m =
    AllOption (Fitting (MethodOptions.Laws.IsValid w rt) (MethodOptions.encode w rt)) m.options

module _ (w : Wire) (L : IsLawful w) (rt : Runtime) (R : IsRuntime rt) where
  abbrev pub rows : List (Row w rt MethodDescriptorProto MethodDescriptorProtoPartial)
  rows =
      scalar_row w L rt (string_type-IsScalar w L rt R) 10 (omega arith) "name" (λ m. m.name)
        (λ m v. record m { name = v }) (λ p. p.name)
      ∷ scalar_row w L rt (string_type-IsScalar w L rt R) 18 (omega arith) "inputType"
          (λ m. m.input_type) (λ m v. record m { input_type = v }) (λ p. p.input_type)
      ∷ scalar_row w L rt (string_type-IsScalar w L rt R) 26 (omega arith) "outputType"
          (λ m. m.output_type) (λ m v. record m { output_type = v }) (λ p. p.output_type)
      ∷ message_row w L (MethodOptions.Laws.MethodOptions-Message w L rt R) 34 (omega arith)
          "options" (λ m. m.options) (λ m v. record m { options = v }) (λ m a b. refl)
          (λ p. p.options)
      ∷ scalar_row w L rt (bool_type-IsScalar w L rt R false) 40 (omega arith) "clientStreaming"
          (λ m. m.client_streaming) (λ m v. record m { client_streaming = v })
          (λ p. p.client_streaming)
      ∷ scalar_row w L rt (bool_type-IsScalar w L rt R false) 48 (omega arith) "serverStreaming"
          (λ m. m.server_streaming) (λ m v. record m { server_streaming = v })
          (λ p. p.server_streaming)
      ∷ []

  pub MethodDescriptorProto-OfRows : OfRows (fns w rt) embed normal rows base empty
  unfolding encode decode from_json to_json from_partial create embed normal switch
  MethodDescriptorProto-OfRows = refl

  abbrev pub MethodDescriptorProto-Message :
      Message rt MethodDescriptorProto MethodDescriptorProtoPartial
  MethodDescriptorProto-Message =
      rows-Message L (fns w rt) embed normal rows base empty MethodDescriptorProto-OfRows
        (IsValid w rt)
        (λ m h. (
          free m.name,
          (
            free m.input_type,
            (free m.output_type, (h, (free m.client_streaming, (free m.server_streaming, tt)))),
          ),
        ))
