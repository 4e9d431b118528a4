-- ===== src/Descriptor/Ends.antt =====
-- The functions `decode` of gen/ts/google/protobuf/descriptor.ts, on any input.
use merkle_proof_service.Descriptor.UninterpretedOptionNamePart
use merkle_proof_service.Descriptor.UninterpretedOption
use merkle_proof_service.Descriptor.FeatureSet
use merkle_proof_service.Descriptor.FeatureSetVisibilityFeature
use merkle_proof_service.Descriptor.FeatureSetDefaultsFeatureSetEditionDefault
use merkle_proof_service.Descriptor.FeatureSetDefaults
use merkle_proof_service.Descriptor.FileOptions
use merkle_proof_service.Descriptor.MessageOptions
use merkle_proof_service.Descriptor.FieldOptionsEditionDefault
use merkle_proof_service.Descriptor.FieldOptionsFeatureSupport
use merkle_proof_service.Descriptor.FieldOptions
use merkle_proof_service.Descriptor.OneofOptions
use merkle_proof_service.Descriptor.EnumOptions
use merkle_proof_service.Descriptor.EnumValueOptions
use merkle_proof_service.Descriptor.ServiceOptions
use merkle_proof_service.Descriptor.MethodOptions
use merkle_proof_service.Descriptor.ExtensionRangeOptionsDeclaration
use merkle_proof_service.Descriptor.ExtensionRangeOptions
use merkle_proof_service.Descriptor.DescriptorProtoReservedRange
use merkle_proof_service.Descriptor.DescriptorProtoExtensionRange
use merkle_proof_service.Descriptor.FieldDescriptorProto
use merkle_proof_service.Descriptor.OneofDescriptorProto
use merkle_proof_service.Descriptor.EnumDescriptorProtoEnumReservedRange
use merkle_proof_service.Descriptor.EnumValueDescriptorProto
use merkle_proof_service.Descriptor.EnumDescriptorProto
use merkle_proof_service.Descriptor.MethodDescriptorProto
use merkle_proof_service.Descriptor.ServiceDescriptorProto
use merkle_proof_service.Descriptor.SourceCodeInfoLocation
use merkle_proof_service.Descriptor.SourceCodeInfo
use merkle_proof_service.Descriptor.GeneratedCodeInfoAnnotation
use merkle_proof_service.Descriptor.GeneratedCodeInfo
use merkle_proof_service.Prelude.{ℕ, ◌≤◌, Option, length}
use merkle_proof_service.Wire.Binary.{Wire, IsLawful, Reader}
use merkle_proof_service.Wire.Loop.{Decoder}
use merkle_proof_service.Wire.Ends.{Ended}
use merkle_proof_service.Json.Value.{Runtime, IsRuntime}

-- The call of `decode` throws, or returns with no more bytes left than it was given.
abbrev pub Halts : {M : Type 0} → Decoder M → Reader → Option ℕ → Type 0
Halts decode r n = Ended (λ k. k ≤ length r.rest) (decode r n)

-- Over a lawful wire and runtime, `decode` of each of the 31 modelled messages of the descriptors ends on
-- every reader and every length: it throws, or returns a message with no more bytes left than it
-- was given.
pub descriptor-decode_ends :
    (w : Wire)
    → IsLawful w
    → (rt : Runtime) → IsRuntime rt
    → (r : Reader) (n : Option ℕ)
    → Halts (UninterpretedOptionNamePart.decode w rt) r n
      × Halts (UninterpretedOption.decode w rt) r n
      × Halts (FeatureSet.decode w rt) r n
      × Halts (FeatureSetVisibilityFeature.decode w rt) r n
      × Halts (FeatureSetDefaultsFeatureSetEditionDefault.decode w rt) r n
      × Halts (FeatureSetDefaults.decode w rt) r n
      × Halts (FileOptions.decode w rt) r n
      × Halts (MessageOptions.decode w rt) r n
      × Halts (FieldOptionsEditionDefault.decode w rt) r n
      × Halts (FieldOptionsFeatureSupport.decode w rt) r n
      × Halts (FieldOptions.decode w rt) r n
      × Halts (OneofOptions.decode w rt) r n
      × Halts (EnumOptions.decode w rt) r n
      × Halts (EnumValueOptions.decode w rt) r n
      × Halts (ServiceOptions.decode w rt) r n
      × Halts (MethodOptions.decode w rt) r n
      × Halts (ExtensionRangeOptionsDeclaration.decode w rt) r n
      × Halts (ExtensionRangeOptions.decode w rt) r n
      × Halts (DescriptorProtoReservedRange.decode w rt) r n
      × Halts (DescriptorProtoExtensionRange.decode w rt) r n
      × Halts (FieldDescriptorProto.decode w rt) r n
      × Halts (OneofDescriptorProto.decode w rt) r n
      × Halts (EnumDescriptorProtoEnumReservedRange.decode w rt) r n
      × Halts (EnumValueDescriptorProto.decode w rt) r n
      × Halts (EnumDescriptorProto.decode w rt) r n
      × Halts (MethodDescriptorProto.decode w rt) r n
      × Halts (ServiceDescriptorProto.decode w rt) r n
      × Halts (SourceCodeInfoLocation.decode w rt) r n
      × Halts (SourceCodeInfo.decode w rt) r n
      × Halts (GeneratedCodeInfoAnnotation.decode w rt) r n
      × Halts (GeneratedCodeInfo.decode w rt) r n
descriptor-decode_ends w L rt R r n = (
  (UninterpretedOptionNamePart.Laws.UninterpretedOptionNamePart-Message w L rt R).ends r n,
  (UninterpretedOption.Laws.UninterpretedOption-Message w L rt R).ends r n,
  (FeatureSet.Laws.FeatureSet-Message w L rt R).ends r n,
  (FeatureSetVisibilityFeature.Laws.FeatureSetVisibilityFeature-Message w L rt R).ends r n,
  (FeatureSetDefaultsFeatureSetEditionDefault.Laws.FeatureSetDefaultsFeatureSetEditionDefault-Message
        w L rt R).ends
      r n,
  (FeatureSetDefaults.Laws.FeatureSetDefaults-Message w L rt R).ends r n,
  (FileOptions.Laws.FileOptions-Message w L rt R).ends r n,
  (MessageOptions.Laws.MessageOptions-Message w L rt R).ends r n,
  (FieldOptionsEditionDefault.Laws.FieldOptionsEditionDefault-Message w L rt R).ends r n,
  (FieldOptionsFeatureSupport.Laws.FieldOptionsFeatureSupport-Message w L rt R).ends r n,
  (FieldOptions.Laws.FieldOptions-Message w L rt R).ends r n,
  (OneofOptions.Laws.OneofOptions-Message w L rt R).ends r n,
  (EnumOptions.Laws.EnumOptions-Message w L rt R).ends r n,
  (EnumValueOptions.Laws.EnumValueOptions-Message w L rt R).ends r n,
  (ServiceOptions.Laws.ServiceOptions-Message w L rt R).ends r n,
  (MethodOptions.Laws.MethodOptions-Message w L rt R).ends r n,
  (ExtensionRangeOptionsDeclaration.Laws.ExtensionRangeOptionsDeclaration-Message w L rt R).ends r
      n,
  (ExtensionRangeOptions.Laws.ExtensionRangeOptions-Message w L rt R).ends r n,
  (DescriptorProtoReservedRange.Laws.DescriptorProtoReservedRange-Message w L rt R).ends r n,
  (DescriptorProtoExtensionRange.Laws.DescriptorProtoExtensionRange-Message w L rt R).ends r n,
  (FieldDescriptorProto.Laws.FieldDescriptorProto-Message w L rt R).ends r n,
  (OneofDescriptorProto.Laws.OneofDescriptorProto-Message w L rt R).ends r n,
  (EnumDescriptorProtoEnumReservedRange.Laws.EnumDescriptorProtoEnumReservedRange-Message w L rt
        R).ends
      r n,
  (EnumValueDescriptorProto.Laws.EnumValueDescriptorProto-Message w L rt R).ends r n,
  (EnumDescriptorProto.Laws.EnumDescriptorProto-Message w L rt R).ends r n,
  (MethodDescriptorProto.Laws.MethodDescriptorProto-Message w L rt R).ends r n,
  (ServiceDescriptorProto.Laws.ServiceDescriptorProto-Message w L rt R).ends r n,
  (SourceCodeInfoLocation.Laws.SourceCodeInfoLocation-Message w L rt R).ends r n,
  (SourceCodeInfo.Laws.SourceCodeInfo-Message w L rt R).ends r n,
  (GeneratedCodeInfoAnnotation.Laws.GeneratedCodeInfoAnnotation-Message w L rt R).ends r n,
  (GeneratedCodeInfo.Laws.GeneratedCodeInfo-Message w L rt R).ends r n,
)
