-- ===== src/Samples/Descriptors.antt =====
-- The messages of the descriptors at concrete values.
use merkle_proof_service.Descriptor.UninterpretedOptionNamePart.{UninterpretedOptionNamePart}
use merkle_proof_service.Descriptor.UninterpretedOptionNamePart
use merkle_proof_service.Descriptor.UninterpretedOption.{UninterpretedOption}
use merkle_proof_service.Descriptor.UninterpretedOption
use merkle_proof_service.Descriptor.FeatureSet.{FeatureSet}
use merkle_proof_service.Descriptor.FeatureSet
use merkle_proof_service.Descriptor.FileOptions.{FileOptions}
use merkle_proof_service.Descriptor.FileOptions
use merkle_proof_service.Descriptor.MessageOptions.{MessageOptions}
use merkle_proof_service.Descriptor.MessageOptions
use merkle_proof_service.Descriptor.FieldOptions.{FieldOptions}
use merkle_proof_service.Descriptor.FieldOptions
use merkle_proof_service.Descriptor.FieldOptionsEditionDefault.{FieldOptionsEditionDefault}
use merkle_proof_service.Descriptor.FieldOptionsEditionDefault
use merkle_proof_service.Descriptor.FieldDescriptorProto.{FieldDescriptorProto}
use merkle_proof_service.Descriptor.FieldDescriptorProto
use merkle_proof_service.Descriptor.OneofOptions.{OneofOptions}
use merkle_proof_service.Descriptor.OneofOptions
use merkle_proof_service.Descriptor.OneofDescriptorProto.{OneofDescriptorProto}
use merkle_proof_service.Descriptor.OneofDescriptorProto
use merkle_proof_service.Descriptor.EnumValueDescriptorProto.{EnumValueDescriptorProto}
use merkle_proof_service.Descriptor.EnumValueDescriptorProto
use merkle_proof_service.Descriptor.EnumDescriptorProtoEnumReservedRange.{
  EnumDescriptorProtoEnumReservedRange,
}
use merkle_proof_service.Descriptor.EnumDescriptorProtoEnumReservedRange
use merkle_proof_service.Descriptor.EnumDescriptorProto.{EnumDescriptorProto}
use merkle_proof_service.Descriptor.EnumDescriptorProto
use merkle_proof_service.Descriptor.MethodOptions.{MethodOptions}
use merkle_proof_service.Descriptor.MethodOptions
use merkle_proof_service.Descriptor.MethodDescriptorProto.{MethodDescriptorProto}
use merkle_proof_service.Descriptor.MethodDescriptorProto
use merkle_proof_service.Descriptor.ServiceDescriptorProto.{ServiceDescriptorProto}
use merkle_proof_service.Descriptor.ServiceDescriptorProto
use merkle_proof_service.Descriptor.ExtensionRangeOptionsDeclaration.{
  ExtensionRangeOptionsDeclaration,
}
use merkle_proof_service.Descriptor.ExtensionRangeOptionsDeclaration
use merkle_proof_service.Descriptor.ExtensionRangeOptions.{ExtensionRangeOptions}
use merkle_proof_service.Descriptor.ExtensionRangeOptions
use merkle_proof_service.Descriptor.DescriptorProtoExtensionRange.{DescriptorProtoExtensionRange}
use merkle_proof_service.Descriptor.DescriptorProtoExtensionRange
use merkle_proof_service.Descriptor.FeatureSetDefaultsFeatureSetEditionDefault.{
  FeatureSetDefaultsFeatureSetEditionDefault,
}
use merkle_proof_service.Descriptor.FeatureSetDefaultsFeatureSetEditionDefault
use merkle_proof_service.Descriptor.FeatureSetDefaults.{FeatureSetDefaults}
use merkle_proof_service.Descriptor.FeatureSetDefaults
use merkle_proof_service.Descriptor.SourceCodeInfoLocation.{SourceCodeInfoLocation}
use merkle_proof_service.Descriptor.SourceCodeInfoLocation
use merkle_proof_service.Descriptor.SourceCodeInfo.{SourceCodeInfo}
use merkle_proof_service.Descriptor.SourceCodeInfo
use merkle_proof_service.Descriptor.GeneratedCodeInfoAnnotation.{GeneratedCodeInfoAnnotation}
use merkle_proof_service.Descriptor.GeneratedCodeInfoAnnotation
use merkle_proof_service.Descriptor.GeneratedCodeInfo.{GeneratedCodeInfo}
use merkle_proof_service.Descriptor.GeneratedCodeInfo
use merkle_proof_service.Descriptor.Enums.FileOptionsOptimizeMode
use merkle_proof_service.Descriptor.Enums.Edition
use merkle_proof_service.Descriptor.Enums.FieldDescriptorProtoLabel
use merkle_proof_service.Descriptor.Enums.FieldDescriptorProtoType
use merkle_proof_service.Descriptor.Enums.SymbolVisibility
use merkle_proof_service.Descriptor.Enums.FieldOptionsCType
use merkle_proof_service.Descriptor.Enums.FieldOptionsJsType
use merkle_proof_service.Descriptor.Enums.FieldOptionsOptionRetention
use merkle_proof_service.Descriptor.Enums.FieldOptionsOptionTargetType
use merkle_proof_service.Descriptor.Enums.MethodOptionsIdempotencyLevel
use merkle_proof_service.Descriptor.Enums.GeneratedCodeInfoAnnotationSemantic
use merkle_proof_service.Descriptor.Enums.FeatureSetFieldPresence
use merkle_proof_service.Descriptor.Enums.FeatureSetEnumType
use merkle_proof_service.Descriptor.Enums.FeatureSetRepeatedFieldEncoding
use merkle_proof_service.Descriptor.Enums.FeatureSetUtf8Validation
use merkle_proof_service.Descriptor.Enums.FeatureSetMessageEncoding
use merkle_proof_service.Descriptor.Enums.FeatureSetEnforceNamingStyle
use merkle_proof_service.Descriptor.Enums.FeatureSetVisibilityFeatureDefaultSymbolVisibility
use merkle_proof_service.Descriptor.Ends.{Halts, descriptor-decode_ends}
use merkle_proof_service.Descriptor.FeatureSetVisibilityFeature
use merkle_proof_service.Descriptor.FieldOptionsFeatureSupport
use merkle_proof_service.Descriptor.EnumOptions
use merkle_proof_service.Descriptor.EnumValueOptions
use merkle_proof_service.Descriptor.ServiceOptions
use merkle_proof_service.Descriptor.DescriptorProtoReservedRange
use merkle_proof_service.Prelude.{pos, negsuc, ◌≡◌, refl, true, false, none, some, [], ◌∷◌, arith}
use merkle_proof_service.Wire.Binary.{ok, reader_at, uint32, string, bool, fork_join}
use merkle_proof_service.Wire.Loop.{
  write_string, write_bool, write_strings, write_message, write_messages, decode_with, on_string,
}
use merkle_proof_service.Wire.Packed.{
  write_packed, write_all_int32, on_packed, packed_loop, on_int32,
}
use merkle_proof_service.Message.Scalar.{write_present, on_scalar}
use merkle_proof_service.Message.Fns.{IsReadAs}
use merkle_proof_service.Samples.Concrete.{
  sample_wire, sample_wire-IsLawful, sample_runtime, sample_runtime-IsRuntime, prefixed, split,
  skip_bytes, put_zigzag, get_zigzag,
}
use merkle_proof_service.Samples.Varint.{put_varint, get_varint}

abbrev name_part : UninterpretedOptionNamePart
name_part = record { name_part = "a"; is_extension = true }

abbrev uninterpreted_option : UninterpretedOption
uninterpreted_option = record {
  name = name_part ∷ [];
  identifier_value = none;
  positive_int_value = some 7;
  negative_int_value = some (negsuc 2);
  double_value = some (pos 3);
  string_value = some (1 ∷ 255 ∷ []);
  aggregate_value = some "b";
}

abbrev feature_set : FeatureSet
feature_set = record FeatureSet.base { field_presence = some (pos 2); json_format = none }

abbrev file_options : FileOptions
file_options = record FileOptions.base {
  java_package = some "p";
  optimize_for = some (pos 2);
  cc_enable_arenas = some false;
  deprecated = none;
  features = some feature_set;
  uninterpreted_option = uninterpreted_option ∷ [];
}

abbrev message_options : MessageOptions
message_options = record MessageOptions.base { map_entry = some true; features = some feature_set }

abbrev edition_default : FieldOptionsEditionDefault
edition_default = record { edition = some (pos 1000); value = some "x" }

abbrev field_options : FieldOptions
field_options = record FieldOptions.base {
  targets = pos 1 ∷ pos 4 ∷ [];
  edition_defaults = edition_default ∷ [];
}

abbrev field : FieldDescriptorProto
field = record FieldDescriptorProto.base {
  name = some "f";
  number = some (negsuc 4);
  label = some (pos 3);
  type = some (pos 9);
  options = some field_options;
}

abbrev oneof_options : OneofOptions
oneof_options = record OneofOptions.base { features = some feature_set }

abbrev oneof : OneofDescriptorProto
oneof = record { name = some "o"; options = some oneof_options }

abbrev enum_value : EnumValueDescriptorProto
enum_value = record { name = some "v"; number = some (pos 1); options = none }

abbrev enum_descriptor : EnumDescriptorProto
enum_descriptor = record EnumDescriptorProto.base {
  name = some "e";
  value = enum_value ∷ [];
  reserved_range = record { start = some (pos 1); end = some (pos 5) } ∷ [];
  reserved_name = "r" ∷ [];
  visibility = some (pos 2);
}

abbrev method : MethodDescriptorProto
method = record MethodDescriptorProto.base {
  name = some "m";
  options = some (record MethodOptions.base { idempotency_level = some (pos 2) });
}

abbrev service : ServiceDescriptorProto
service = record { name = some "s"; method = method ∷ []; options = none }

abbrev declaration : ExtensionRangeOptionsDeclaration
declaration = record ExtensionRangeOptionsDeclaration.base { number = some (pos 100) }

abbrev extension_range : DescriptorProtoExtensionRange
extension_range = record {
  start = some (pos 100);
  end = some (pos 200);
  options =
      some
        (record ExtensionRangeOptions.base { declaration = declaration ∷ []; verification = none });
}

abbrev edition_features : FeatureSetDefaultsFeatureSetEditionDefault
edition_features = record {
  edition = some (pos 998);
  overridable_features = some feature_set;
  fixed_features = none;
}

abbrev feature_set_defaults : FeatureSetDefaults
feature_set_defaults = record {
  defaults = edition_features ∷ [];
  minimum_edition = some (pos 998);
  maximum_edition = none;
}

abbrev location : SourceCodeInfoLocation
location = record SourceCodeInfoLocation.base {
  path = pos 4 ∷ pos 0 ∷ [];
  leading_comments = none;
  leading_detached_comments = "c" ∷ [];
}

abbrev source_code_info : SourceCodeInfo
source_code_info = record { location = location ∷ [] }

abbrev annotation : GeneratedCodeInfoAnnotation
annotation = record GeneratedCodeInfoAnnotation.base {
  path = pos 1 ∷ [];
  begin = some (pos 3);
  semantic = some (pos 1);
}

abbrev generated_code_info : GeneratedCodeInfo
generated_code_info = record { annotation = annotation ∷ [] }

-- What evaluation goes through.
runs : Unit {0}
unfolding UninterpretedOptionNamePart.encode UninterpretedOption.encode FeatureSet.encode
    FileOptions.encode MessageOptions.encode FieldOptions.encode FieldOptionsEditionDefault.encode
    FieldDescriptorProto.encode OneofOptions.encode OneofDescriptorProto.encode
    EnumValueDescriptorProto.encode EnumDescriptorProtoEnumReservedRange.encode
    EnumDescriptorProto.encode MethodOptions.encode MethodDescriptorProto.encode
    ServiceDescriptorProto.encode ExtensionRangeOptionsDeclaration.encode
    ExtensionRangeOptions.encode DescriptorProtoExtensionRange.encode
    FeatureSetDefaultsFeatureSetEditionDefault.encode FeatureSetDefaults.encode
    SourceCodeInfoLocation.encode SourceCodeInfo.encode GeneratedCodeInfoAnnotation.encode
    GeneratedCodeInfo.encode SourceCodeInfoLocation.decode write_present write_packed
    write_all_int32 write_string write_bool write_strings write_message write_messages uint32 string
    bool fork_join prefixed split skip_bytes put_varint get_varint put_zigzag get_zigzag decode_with
    on_scalar on_string on_packed packed_loop on_int32
runs = tt

uninterpreted_option-IsValid :
    UninterpretedOption.Laws.IsValid sample_wire sample_runtime uninterpreted_option
unfolding runs
uninterpreted_option-IsValid = (
  ((tt, omega arith), tt),
  omega arith,
  omega arith,
  omega arith,
  (omega arith, (omega arith, tt)),
)

feature_set-IsValid : FeatureSet.Laws.IsValid sample_wire sample_runtime feature_set
unfolding runs
feature_set-IsValid = (
  (omega arith, FeatureSetFieldPresence.implicit, refl),
  (omega arith, FeatureSetEnumType.enum_type_unknown, refl),
  (omega arith, FeatureSetRepeatedFieldEncoding.repeated_field_encoding_unknown, refl),
  (omega arith, FeatureSetUtf8Validation.utf8_validation_unknown, refl),
  (omega arith, FeatureSetMessageEncoding.message_encoding_unknown, refl),
  tt,
  (omega arith, FeatureSetEnforceNamingStyle.enforce_naming_style_unknown, refl),
  (
    omega arith,
    FeatureSetVisibilityFeatureDefaultSymbolVisibility.default_symbol_visibility_unknown,
    refl,
  ),
)

FileOptions-IsReadAs_example :
    IsReadAs
      (FileOptions.fns sample_wire sample_runtime)
      FileOptions.embed
      file_options
      (FileOptions.Laws.normal file_options)
unfolding runs
FileOptions-IsReadAs_example =
    FileOptions.Laws.FileOptions-IsReadAs sample_wire sample_wire-IsLawful sample_runtime
      sample_runtime-IsRuntime file_options
      (
        (omega arith, FileOptionsOptimizeMode.code_size, refl),
        (feature_set-IsValid, omega arith),
        ((uninterpreted_option-IsValid, omega arith), tt),
      )

MessageOptions-IsReadAs_example :
    IsReadAs
      (MessageOptions.fns sample_wire sample_runtime)
      MessageOptions.embed
      message_options
      (MessageOptions.Laws.normal message_options)
unfolding runs
MessageOptions-IsReadAs_example =
    MessageOptions.Laws.MessageOptions-IsReadAs sample_wire sample_wire-IsLawful sample_runtime
      sample_runtime-IsRuntime message_options ((feature_set-IsValid, omega arith), tt)

field_options-IsValid : FieldOptions.Laws.IsValid sample_wire sample_runtime field_options
unfolding runs
field_options-IsValid = (
  (omega arith, FieldOptionsCType.string, refl),
  (omega arith, FieldOptionsJsType.js_normal, refl),
  (omega arith, FieldOptionsOptionRetention.retention_unknown, refl),
  (
    (
      (omega arith, FieldOptionsOptionTargetType.target_type_file, refl),
      ((omega arith, FieldOptionsOptionTargetType.target_type_field, refl), tt),
    ),
    (omega arith, (omega arith, tt)),
    omega arith,
  ),
  (((omega arith, Edition.edition_2023, refl), omega arith), tt),
  tt,
  tt,
  tt,
)

FieldDescriptorProto-IsReadAs_example :
    IsReadAs
      (FieldDescriptorProto.fns sample_wire sample_runtime)
      FieldDescriptorProto.embed
      field
      (FieldDescriptorProto.Laws.normal field)
unfolding runs
FieldDescriptorProto-IsReadAs_example =
    FieldDescriptorProto.Laws.FieldDescriptorProto-IsReadAs sample_wire sample_wire-IsLawful
      sample_runtime sample_runtime-IsRuntime field
      (
        omega arith,
        (omega arith, FieldDescriptorProtoLabel.label_repeated, refl),
        (omega arith, FieldDescriptorProtoType.type_string, refl),
        omega arith,
        (field_options-IsValid, omega arith),
      )

OneofDescriptorProto-IsReadAs_example :
    IsReadAs
      (OneofDescriptorProto.fns sample_wire sample_runtime)
      OneofDescriptorProto.embed
      oneof
      (OneofDescriptorProto.Laws.normal oneof)
unfolding runs
OneofDescriptorProto-IsReadAs_example =
    OneofDescriptorProto.Laws.OneofDescriptorProto-IsReadAs sample_wire sample_wire-IsLawful
      sample_runtime sample_runtime-IsRuntime oneof
      (((feature_set-IsValid, omega arith), tt), omega arith)

EnumDescriptorProto-IsReadAs_example :
    IsReadAs
      (EnumDescriptorProto.fns sample_wire sample_runtime)
      EnumDescriptorProto.embed
      enum_descriptor
      (EnumDescriptorProto.Laws.normal enum_descriptor)
unfolding runs
EnumDescriptorProto-IsReadAs_example =
    EnumDescriptorProto.Laws.EnumDescriptorProto-IsReadAs sample_wire sample_wire-IsLawful
      sample_runtime sample_runtime-IsRuntime enum_descriptor
      (
        (((omega arith, tt), omega arith), tt),
        tt,
        (((omega arith, omega arith), omega arith), tt),
        (omega arith, SymbolVisibility.visibility_export, refl),
      )

ServiceDescriptorProto-IsReadAs_example :
    IsReadAs
      (ServiceDescriptorProto.fns sample_wire sample_runtime)
      ServiceDescriptorProto.embed
      service
      (ServiceDescriptorProto.Laws.normal service)
unfolding runs
ServiceDescriptorProto-IsReadAs_example =
    ServiceDescriptorProto.Laws.ServiceDescriptorProto-IsReadAs sample_wire sample_wire-IsLawful
      sample_runtime sample_runtime-IsRuntime service
      (
        (
          (
            (((omega arith, MethodOptionsIdempotencyLevel.idempotent, refl), tt, tt), omega arith),
            omega arith,
          ),
          tt,
        ),
        tt,
      )

DescriptorProtoExtensionRange-IsReadAs_example :
    IsReadAs
      (DescriptorProtoExtensionRange.fns sample_wire sample_runtime)
      DescriptorProtoExtensionRange.embed
      extension_range
      (DescriptorProtoExtensionRange.Laws.normal extension_range)
unfolding runs
DescriptorProtoExtensionRange-IsReadAs_example =
    DescriptorProtoExtensionRange.Laws.DescriptorProtoExtensionRange-IsReadAs sample_wire
      sample_wire-IsLawful sample_runtime sample_runtime-IsRuntime extension_range
      (omega arith, omega arith, ((tt, ((omega arith, omega arith), tt), tt, tt), omega arith))

FeatureSetDefaults-IsReadAs_example :
    IsReadAs
      (FeatureSetDefaults.fns sample_wire sample_runtime)
      FeatureSetDefaults.embed
      feature_set_defaults
      (FeatureSetDefaults.Laws.normal feature_set_defaults)
unfolding runs
FeatureSetDefaults-IsReadAs_example =
    FeatureSetDefaults.Laws.FeatureSetDefaults-IsReadAs sample_wire sample_wire-IsLawful
      sample_runtime sample_runtime-IsRuntime feature_set_defaults
      (
        (
          (
            ((omega arith, Edition.edition_proto2, refl), (feature_set-IsValid, omega arith), tt),
            omega arith,
          ),
          tt,
        ),
        (omega arith, Edition.edition_proto2, refl),
        tt,
      )

SourceCodeInfo-IsReadAs_example :
    IsReadAs
      (SourceCodeInfo.fns sample_wire sample_runtime)
      SourceCodeInfo.embed
      source_code_info
      (SourceCodeInfo.Laws.normal source_code_info)
unfolding runs
SourceCodeInfo-IsReadAs_example =
    SourceCodeInfo.Laws.SourceCodeInfo-IsReadAs sample_wire sample_wire-IsLawful sample_runtime
      sample_runtime-IsRuntime source_code_info
      (
        (
          (
            ((omega arith, (omega arith, tt)), (omega arith, (omega arith, tt)), omega arith),
            (tt, tt, omega arith),
          ),
          omega arith,
        ),
        tt,
      )

GeneratedCodeInfo-IsReadAs_example :
    IsReadAs
      (GeneratedCodeInfo.fns sample_wire sample_runtime)
      GeneratedCodeInfo.embed
      generated_code_info
      (GeneratedCodeInfo.Laws.normal generated_code_info)
unfolding runs
GeneratedCodeInfo-IsReadAs_example =
    GeneratedCodeInfo.Laws.GeneratedCodeInfo-IsReadAs sample_wire sample_wire-IsLawful
      sample_runtime sample_runtime-IsRuntime generated_code_info
      (
        (
          (
            ((omega arith, tt), (omega arith, tt), omega arith),
            omega arith,
            omega arith,
            (omega arith, GeneratedCodeInfoAnnotationSemantic.set, refl),
          ),
          omega arith,
        ),
        tt,
      )

descriptor-decode_ends_example :
    Halts
      (UninterpretedOptionNamePart.decode sample_wire sample_runtime)
      (reader_at 0 (10 ∷ 9 ∷ []))
      none
    × Halts (UninterpretedOption.decode sample_wire sample_runtime) (reader_at 0 (10 ∷ 9 ∷ [])) none
    × Halts (FeatureSet.decode sample_wire sample_runtime) (reader_at 0 (10 ∷ 9 ∷ [])) none
    × Halts
        (FeatureSetVisibilityFeature.decode sample_wire sample_runtime)
        (reader_at 0 (10 ∷ 9 ∷ []))
        none
    × Halts
        (FeatureSetDefaultsFeatureSetEditionDefault.decode sample_wire sample_runtime)
        (reader_at 0 (10 ∷ 9 ∷ []))
        none
    × Halts (FeatureSetDefaults.decode sample_wire sample_runtime) (reader_at 0 (10 ∷ 9 ∷ [])) none
    × Halts (FileOptions.decode sample_wire sample_runtime) (reader_at 0 (10 ∷ 9 ∷ [])) none
    × Halts (MessageOptions.decode sample_wire sample_runtime) (reader_at 0 (10 ∷ 9 ∷ [])) none
    × Halts
        (FieldOptionsEditionDefault.decode sample_wire sample_runtime)
        (reader_at 0 (10 ∷ 9 ∷ []))
        none
    × Halts
        (FieldOptionsFeatureSupport.decode sample_wire sample_runtime)
        (reader_at 0 (10 ∷ 9 ∷ []))
        none
    × Halts (FieldOptions.decode sample_wire sample_runtime) (reader_at 0 (10 ∷ 9 ∷ [])) none
    × Halts (OneofOptions.decode sample_wire sample_runtime) (reader_at 0 (10 ∷ 9 ∷ [])) none
    × Halts (EnumOptions.decode sample_wire sample_runtime) (reader_at 0 (10 ∷ 9 ∷ [])) none
    × Halts (EnumValueOptions.decode sample_wire sample_runtime) (reader_at 0 (10 ∷ 9 ∷ [])) none
    × Halts (ServiceOptions.decode sample_wire sample_runtime) (reader_at 0 (10 ∷ 9 ∷ [])) none
    × Halts (MethodOptions.decode sample_wire sample_runtime) (reader_at 0 (10 ∷ 9 ∷ [])) none
    × Halts
        (ExtensionRangeOptionsDeclaration.decode sample_wire sample_runtime)
        (reader_at 0 (10 ∷ 9 ∷ []))
        none
    × Halts
        (ExtensionRangeOptions.decode sample_wire sample_runtime)
        (reader_at 0 (10 ∷ 9 ∷ []))
        none
    × Halts
        (DescriptorProtoReservedRange.decode sample_wire sample_runtime)
        (reader_at 0 (10 ∷ 9 ∷ []))
        none
    × Halts
        (DescriptorProtoExtensionRange.decode sample_wire sample_runtime)
        (reader_at 0 (10 ∷ 9 ∷ []))
        none
    × Halts
        (FieldDescriptorProto.decode sample_wire sample_runtime)
        (reader_at 0 (10 ∷ 9 ∷ []))
        none
    × Halts
        (OneofDescriptorProto.decode sample_wire sample_runtime)
        (reader_at 0 (10 ∷ 9 ∷ []))
        none
    × Halts
        (EnumDescriptorProtoEnumReservedRange.decode sample_wire sample_runtime)
        (reader_at 0 (10 ∷ 9 ∷ []))
        none
    × Halts
        (EnumValueDescriptorProto.decode sample_wire sample_runtime)
        (reader_at 0 (10 ∷ 9 ∷ []))
        none
    × Halts (EnumDescriptorProto.decode sample_wire sample_runtime) (reader_at 0 (10 ∷ 9 ∷ [])) none
    × Halts
        (MethodDescriptorProto.decode sample_wire sample_runtime)
        (reader_at 0 (10 ∷ 9 ∷ []))
        none
    × Halts
        (ServiceDescriptorProto.decode sample_wire sample_runtime)
        (reader_at 0 (10 ∷ 9 ∷ []))
        none
    × Halts
        (SourceCodeInfoLocation.decode sample_wire sample_runtime)
        (reader_at 0 (10 ∷ 9 ∷ []))
        none
    × Halts (SourceCodeInfo.decode sample_wire sample_runtime) (reader_at 0 (10 ∷ 9 ∷ [])) none
    × Halts
        (GeneratedCodeInfoAnnotation.decode sample_wire sample_runtime)
        (reader_at 0 (10 ∷ 9 ∷ []))
        none
    × Halts (GeneratedCodeInfo.decode sample_wire sample_runtime) (reader_at 0 (10 ∷ 9 ∷ [])) none
descriptor-decode_ends_example =
    descriptor-decode_ends sample_wire sample_wire-IsLawful sample_runtime sample_runtime-IsRuntime
      (reader_at 0 (10 ∷ 9 ∷ [])) none

-- Values that are not packed are read too, and behind packed ones.
decode_unpacked :
    SourceCodeInfoLocation.decode sample_wire sample_runtime
      (reader_at 0 (10 ∷ 2 ∷ 2 ∷ 4 ∷ 8 ∷ 6 ∷ []))
      none
    ≡ ok (record SourceCodeInfoLocation.base { path = pos 1 ∷ pos 2 ∷ pos 3 ∷ [] }, reader_at 6 [])
unfolding runs
decode_unpacked = refl
