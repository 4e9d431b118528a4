-- ===== src/Descriptor/Enums.antt =====
-- The enums of gen/ts/google/protobuf/descriptor.ts.
pub mod Edition
pub mod SymbolVisibility
pub mod ExtensionRangeOptionsVerificationState
pub mod FieldDescriptorProtoType
pub mod FieldDescriptorProtoLabel
pub mod FileOptionsOptimizeMode
pub mod FieldOptionsCType
pub mod FieldOptionsJsType
pub mod FieldOptionsOptionRetention
pub mod FieldOptionsOptionTargetType
pub mod MethodOptionsIdempotencyLevel
pub mod FeatureSetFieldPresence
pub mod FeatureSetEnumType
pub mod FeatureSetRepeatedFieldEncoding
pub mod FeatureSetUtf8Validation
pub mod FeatureSetMessageEncoding
pub mod FeatureSetJsonFormat
pub mod FeatureSetEnforceNamingStyle
pub mod FeatureSetVisibilityFeatureDefaultSymbolVisibility
pub mod GeneratedCodeInfoAnnotationSemantic
