-- ===== src/Descriptor/Laws.antt =====
-- The JSON functions of all enums of gen/ts/google/protobuf/descriptor.ts.
use merkle_proof_service.Descriptor.Enums.Edition
use merkle_proof_service.Descriptor.Enums.SymbolVisibility
use merkle_proof_service.Descriptor.Enums.ExtensionRangeOptionsVerificationState
use merkle_proof_service.Descriptor.Enums.FieldDescriptorProtoType
use merkle_proof_service.Descriptor.Enums.FieldDescriptorProtoLabel
use merkle_proof_service.Descriptor.Enums.FileOptionsOptimizeMode
use merkle_proof_service.Descriptor.Enums.FieldOptionsCType
use merkle_proof_service.Descriptor.Enums.FieldOptionsJsType
use merkle_proof_service.Descriptor.Enums.FieldOptionsOptionRetention
use merkle_proof_service.Descriptor.Enums.FieldOptionsOptionTargetType
use merkle_proof_service.Descriptor.Enums.MethodOptionsIdempotencyLevel
use merkle_proof_service.Descriptor.Enums.FeatureSetFieldPresence
use merkle_proof_service.Descriptor.Enums.FeatureSetEnumType
use merkle_proof_service.Descriptor.Enums.FeatureSetRepeatedFieldEncoding
use merkle_proof_service.Descriptor.Enums.FeatureSetUtf8Validation
use merkle_proof_service.Descriptor.Enums.FeatureSetMessageEncoding
use merkle_proof_service.Descriptor.Enums.FeatureSetJsonFormat
use merkle_proof_service.Descriptor.Enums.FeatureSetEnforceNamingStyle
use merkle_proof_service.Descriptor.Enums.FeatureSetVisibilityFeatureDefaultSymbolVisibility
use merkle_proof_service.Descriptor.Enums.GeneratedCodeInfoAnnotationSemantic
use merkle_proof_service.Json.Enum.{IsEnum}

-- For each enum of the descriptors: the name that `…ToJSON` gives a member is read back by
-- `…FromJSON` as that member; so is the number of each member but UNRECOGNIZED, the only one with
-- none; and a value that is neither the name nor the number of the member read is read as
-- UNRECOGNIZED.
pub enums-IsEnum :
    IsEnum Edition.unrecognized Edition.code Edition.from_json Edition.to_json
    × IsEnum SymbolVisibility.unrecognized SymbolVisibility.code SymbolVisibility.from_json
        SymbolVisibility.to_json
    × IsEnum ExtensionRangeOptionsVerificationState.unrecognized
        ExtensionRangeOptionsVerificationState.code ExtensionRangeOptionsVerificationState.from_json
        ExtensionRangeOptionsVerificationState.to_json
    × IsEnum FieldDescriptorProtoType.unrecognized FieldDescriptorProtoType.code
        FieldDescriptorProtoType.from_json FieldDescriptorProtoType.to_json
    × IsEnum FieldDescriptorProtoLabel.unrecognized FieldDescriptorProtoLabel.code
        FieldDescriptorProtoLabel.from_json FieldDescriptorProtoLabel.to_json
    × IsEnum FileOptionsOptimizeMode.unrecognized FileOptionsOptimizeMode.code
        FileOptionsOptimizeMode.from_json FileOptionsOptimizeMode.to_json
    × IsEnum FieldOptionsCType.unrecognized FieldOptionsCType.code FieldOptionsCType.from_json
        FieldOptionsCType.to_json
    × IsEnum FieldOptionsJsType.unrecognized FieldOptionsJsType.code FieldOptionsJsType.from_json
        FieldOptionsJsType.to_json
    × IsEnum FieldOptionsOptionRetention.unrecognized FieldOptionsOptionRetention.code
        FieldOptionsOptionRetention.from_json FieldOptionsOptionRetention.to_json
    × IsEnum FieldOptionsOptionTargetType.unrecognized FieldOptionsOptionTargetType.code
        FieldOptionsOptionTargetType.from_json FieldOptionsOptionTargetType.to_json
    × IsEnum MethodOptionsIdempotencyLevel.unrecognized MethodOptionsIdempotencyLevel.code
        MethodOptionsIdempotencyLevel.from_json MethodOptionsIdempotencyLevel.to_json
    × IsEnum FeatureSetFieldPresence.unrecognized FeatureSetFieldPresence.code
        FeatureSetFieldPresence.from_json FeatureSetFieldPresence.to_json
    × IsEnum FeatureSetEnumType.unrecognized FeatureSetEnumType.code FeatureSetEnumType.from_json
        FeatureSetEnumType.to_json
    × IsEnum FeatureSetRepeatedFieldEncoding.unrecognized FeatureSetRepeatedFieldEncoding.code
        FeatureSetRepeatedFieldEncoding.from_json FeatureSetRepeatedFieldEncoding.to_json
    × IsEnum FeatureSetUtf8Validation.unrecognized FeatureSetUtf8Validation.code
        FeatureSetUtf8Validation.from_json FeatureSetUtf8Validation.to_json
    × IsEnum FeatureSetMessageEncoding.unrecognized FeatureSetMessageEncoding.code
        FeatureSetMessageEncoding.from_json FeatureSetMessageEncoding.to_json
    × IsEnum FeatureSetJsonFormat.unrecognized FeatureSetJsonFormat.code
        FeatureSetJsonFormat.from_json FeatureSetJsonFormat.to_json
    × IsEnum FeatureSetEnforceNamingStyle.unrecognized FeatureSetEnforceNamingStyle.code
        FeatureSetEnforceNamingStyle.from_json FeatureSetEnforceNamingStyle.to_json
    × IsEnum FeatureSetVisibilityFeatureDefaultSymbolVisibility.unrecognized
        FeatureSetVisibilityFeatureDefaultSymbolVisibility.code
        FeatureSetVisibilityFeatureDefaultSymbolVisibility.from_json
        FeatureSetVisibilityFeatureDefaultSymbolVisibility.to_json
    × IsEnum GeneratedCodeInfoAnnotationSemantic.unrecognized
        GeneratedCodeInfoAnnotationSemantic.code GeneratedCodeInfoAnnotationSemantic.from_json
        GeneratedCodeInfoAnnotationSemantic.to_json
enums-IsEnum = (
  Edition.Edition-IsEnum, SymbolVisibility.SymbolVisibility-IsEnum,
  ExtensionRangeOptionsVerificationState.ExtensionRangeOptionsVerificationState-IsEnum,
  FieldDescriptorProtoType.FieldDescriptorProtoType-IsEnum,
  FieldDescriptorProtoLabel.FieldDescriptorProtoLabel-IsEnum,
  FileOptionsOptimizeMode.FileOptionsOptimizeMode-IsEnum,
  FieldOptionsCType.FieldOptionsCType-IsEnum, FieldOptionsJsType.FieldOptionsJsType-IsEnum,
  FieldOptionsOptionRetention.FieldOptionsOptionRetention-IsEnum,
  FieldOptionsOptionTargetType.FieldOptionsOptionTargetType-IsEnum,
  MethodOptionsIdempotencyLevel.MethodOptionsIdempotencyLevel-IsEnum,
  FeatureSetFieldPresence.FeatureSetFieldPresence-IsEnum,
  FeatureSetEnumType.FeatureSetEnumType-IsEnum,
  FeatureSetRepeatedFieldEncoding.FeatureSetRepeatedFieldEncoding-IsEnum,
  FeatureSetUtf8Validation.FeatureSetUtf8Validation-IsEnum,
  FeatureSetMessageEncoding.FeatureSetMessageEncoding-IsEnum,
  FeatureSetJsonFormat.FeatureSetJsonFormat-IsEnum,
  FeatureSetEnforceNamingStyle.FeatureSetEnforceNamingStyle-IsEnum,
  FeatureSetVisibilityFeatureDefaultSymbolVisibility.FeatureSetVisibilityFeatureDefaultSymbolVisibility-IsEnum,
  GeneratedCodeInfoAnnotationSemantic.GeneratedCodeInfoAnnotationSemantic-IsEnum,
)
