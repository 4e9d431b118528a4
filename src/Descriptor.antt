-- ===== src/Descriptor.antt =====
-- gen/ts/google/protobuf/descriptor.ts: the descriptors of protocol buffers.
pub mod Enums
pub mod Laws
pub mod DescriptorProtoReservedRange
pub mod UninterpretedOptionNamePart
pub mod UninterpretedOption
pub mod FeatureSet
pub mod FeatureSetVisibilityFeature
pub mod FeatureSetDefaultsFeatureSetEditionDefault
pub mod FeatureSetDefaults
pub mod FileOptions
pub mod MessageOptions
pub mod FieldOptionsEditionDefault
pub mod FieldOptionsFeatureSupport
pub mod OneofOptions
pub mod EnumOptions
pub mod EnumValueOptions
pub mod ServiceOptions
pub mod MethodOptions
pub mod ExtensionRangeOptionsDeclaration
pub mod ExtensionRangeOptions
pub mod DescriptorProtoExtensionRange
pub mod OneofDescriptorProto
pub mod EnumDescriptorProtoEnumReservedRange
pub mod EnumValueDescriptorProto
pub mod EnumDescriptorProto
pub mod MethodDescriptorProto
pub mod ServiceDescriptorProto
pub mod FieldOptions
pub mod FieldDescriptorProto
pub mod SourceCodeInfoLocation
pub mod SourceCodeInfo
pub mod GeneratedCodeInfoAnnotation
pub mod GeneratedCodeInfo
pub mod Ends
pub mod Bounds
pub mod Members
