-- ===== src/Descriptor/FileOptions.antt =====
-- FileOptions of gen/ts/google/protobuf/descriptor.ts.
pub mod Laws
use merkle_proof_service.Descriptor.FeatureSet.{FeatureSet, FeatureSetPartial}
use merkle_proof_service.Descriptor.FeatureSet
use merkle_proof_service.Descriptor.UninterpretedOption.{
  UninterpretedOption, UninterpretedOptionPartial,
}
use merkle_proof_service.Descriptor.UninterpretedOption
use merkle_proof_service.Descriptor.Enums.FileOptionsOptimizeMode
use merkle_proof_service.Message.Statements.{
  ℤ, pos, String, Bool, true, false, Option, none, some, List, [], ◌∷◌, map, Outcome, ok, ◌>>=◌,
  Wire, Writer, ◌▸◌, write_message, write_messages, Case, case_at, Decoder, decode_with, on_message,
  Value, Runtime, message_of, messages_of, message_entry, array_entry, build, or_else, map_option,
  map_or_empty, MessageFns, string_type, bool_type, member_type, write_present, on_scalar,
  present_of, present_entry, or_present, store, push,
}

pub record FileOptions : Type 0 where
  pub java_package : Option String
  pub java_outer_classname : Option String
  pub java_multiple_files : Option Bool
  pub java_generate_equals_and_hash : Option Bool
  pub java_string_check_utf8 : Option Bool
  pub optimize_for : Option ℤ
  pub go_package : Option String
  pub cc_generic_services : Option Bool
  pub java_generic_services : Option Bool
  pub py_generic_services : Option Bool
  pub deprecated : Option Bool
  pub cc_enable_arenas : Option Bool
  pub objc_class_prefix : Option String
  pub csharp_namespace : Option String
  pub swift_prefix : Option String
  pub php_class_prefix : Option String
  pub php_namespace : Option String
  pub php_metadata_namespace : Option String
  pub ruby_package : Option String
  pub features : Option FeatureSet
  pub uninterpreted_option : List UninterpretedOption

-- DeepPartial<FileOptions>: `none` for a property that is missing or null.
pub record FileOptionsPartial : Type 0 where
  pub java_package : Option String
  pub java_outer_classname : Option String
  pub java_multiple_files : Option Bool
  pub java_generate_equals_and_hash : Option Bool
  pub java_string_check_utf8 : Option Bool
  pub optimize_for : Option ℤ
  pub go_package : Option String
  pub cc_generic_services : Option Bool
  pub java_generic_services : Option Bool
  pub py_generic_services : Option Bool
  pub deprecated : Option Bool
  pub cc_enable_arenas : Option Bool
  pub objc_class_prefix : Option String
  pub csharp_namespace : Option String
  pub swift_prefix : Option String
  pub php_class_prefix : Option String
  pub php_namespace : Option String
  pub php_metadata_namespace : Option String
  pub ruby_package : Option String
  pub features : Option FeatureSetPartial
  pub uninterpreted_option : Option (List UninterpretedOptionPartial)

-- createBaseFileOptions
abbrev pub base : FileOptions
base = record {
  java_package = some "";
  java_outer_classname = some "";
  java_multiple_files = some false;
  java_generate_equals_and_hash = some false;
  java_string_check_utf8 = some false;
  optimize_for = some (pos 1);
  go_package = some "";
  cc_generic_services = some false;
  java_generic_services = some false;
  py_generic_services = some false;
  deprecated = some false;
  cc_enable_arenas = some true;
  objc_class_prefix = some "";
  csharp_namespace = some "";
  swift_prefix = some "";
  php_class_prefix = some "";
  php_namespace = some "";
  php_metadata_namespace = some "";
  ruby_package = some "";
  features = none;
  uninterpreted_option = [];
}

module _ (w : Wire) (rt : Runtime) where
  unfoldable pub encode : FileOptions → Writer → Writer
  encode message =
      write_present w (string_type w rt) 10 message.java_package
      ▸ write_present w (string_type w rt) 66 message.java_outer_classname
      ▸ write_present w (bool_type w rt false) 80 message.java_multiple_files
      ▸ write_present w (bool_type w rt false) 160 message.java_generate_equals_and_hash
      ▸ write_present w (bool_type w rt false) 216 message.java_string_check_utf8
      ▸ write_present w (member_type w rt FileOptionsOptimizeMode.fns 1) 72 message.optimize_for
      ▸ write_present w (string_type w rt) 90 message.go_package
      ▸ write_present w (bool_type w rt false) 128 message.cc_generic_services
      ▸ write_present w (bool_type w rt false) 136 message.java_generic_services
      ▸ write_present w (bool_type w rt false) 144 message.py_generic_services
      ▸ write_present w (bool_type w rt false) 184 message.deprecated
      ▸ write_present w (bool_type w rt true) 248 message.cc_enable_arenas
      ▸ write_present w (string_type w rt) 290 message.objc_class_prefix
      ▸ write_present w (string_type w rt) 298 message.csharp_namespace
      ▸ write_present w (string_type w rt) 314 message.swift_prefix
      ▸ write_present w (string_type w rt) 322 message.php_class_prefix
      ▸ write_present w (string_type w rt) 330 message.php_namespace
      ▸ write_present w (string_type w rt) 354 message.php_metadata_namespace
      ▸ write_present w (string_type w rt) 362 message.ruby_package
      ▸ write_message w (FeatureSet.encode w rt) 402 message.features
      ▸ write_messages w (UninterpretedOption.encode w rt) 7994 message.uninterpreted_option

  -- The cases of the switch in `decode`.
  abbrev pub cases : List (Case FileOptions)
  cases =
      case_at 1 10 (on_scalar (string_type w rt) (store (λ m v. record m { java_package = v })))
      ∷ case_at 8 66
          (on_scalar (string_type w rt) (store (λ m v. record m { java_outer_classname = v })))
      ∷ case_at 10 80
          (on_scalar (bool_type w rt false) (store (λ m v. record m { java_multiple_files = v })))
      ∷ case_at 20 160 (
          on_scalar (bool_type w rt false)
            (store (λ m v. record m { java_generate_equals_and_hash = v })))
      ∷ case_at 27 216 (
          on_scalar (bool_type w rt false) (store (λ m v. record m { java_string_check_utf8 = v })))
      ∷ case_at 9 72 (
          on_scalar (member_type w rt FileOptionsOptimizeMode.fns 1)
            (store (λ m v. record m { optimize_for = v })))
      ∷ case_at 11 90 (on_scalar (string_type w rt) (store (λ m v. record m { go_package = v })))
      ∷ case_at 16 128
          (on_scalar (bool_type w rt false) (store (λ m v. record m { cc_generic_services = v })))
      ∷ case_at 17 136
          (on_scalar (bool_type w rt false) (store (λ m v. record m { java_generic_services = v })))
      ∷ case_at 18 144
          (on_scalar (bool_type w rt false) (store (λ m v. record m { py_generic_services = v })))
      ∷ case_at 23 184
          (on_scalar (bool_type w rt false) (store (λ m v. record m { deprecated = v })))
      ∷ case_at 31 248
          (on_scalar (bool_type w rt true) (store (λ m v. record m { cc_enable_arenas = v })))
      ∷ case_at 36 290
          (on_scalar (string_type w rt) (store (λ m v. record m { objc_class_prefix = v })))
      ∷ case_at 37 298
          (on_scalar (string_type w rt) (store (λ m v. record m { csharp_namespace = v })))
      ∷ case_at 39 314 (on_scalar (string_type w rt) (store (λ m v. record m { swift_prefix = v })))
      ∷ case_at 40 322
          (on_scalar (string_type w rt) (store (λ m v. record m { php_class_prefix = v })))
      ∷ case_at 41 330
          (on_scalar (string_type w rt) (store (λ m v. record m { php_namespace = v })))
      ∷ case_at 44 354
          (on_scalar (string_type w rt) (store (λ m v. record m { php_metadata_namespace = v })))
      ∷ case_at 45 362 (on_scalar (string_type w rt) (store (λ m v. record m { ruby_package = v })))
      ∷ case_at 50 402
          (on_message w (FeatureSet.decode w rt) (store (λ m v. record m { features = v })))
      ∷ case_at 999 7994 (
          on_message w (UninterpretedOption.decode w rt)
            (push (λ m. m.uninterpreted_option) (λ m v. record m { uninterpreted_option = v })))
      ∷ []

  unfoldable pub decode : Decoder FileOptions
  decode = decode_with w cases base

  unfoldable pub from_json : Value → Outcome FileOptions
  from_json json = do
    java_package ← present_of (string_type w rt) "javaPackage" json
    java_outer_classname ← present_of (string_type w rt) "javaOuterClassname" json
    java_multiple_files ← present_of (bool_type w rt false) "javaMultipleFiles" json
    java_generate_equals_and_hash ←
        present_of (bool_type w rt false) "javaGenerateEqualsAndHash" json
    java_string_check_utf8 ← present_of (bool_type w rt false) "javaStringCheckUtf8" json
    optimize_for ← present_of (member_type w rt FileOptionsOptimizeMode.fns 1) "optimizeFor" json
    go_package ← present_of (string_type w rt) "goPackage" json
    cc_generic_services ← present_of (bool_type w rt false) "ccGenericServices" json
    java_generic_services ← present_of (bool_type w rt false) "javaGenericServices" json
    py_generic_services ← present_of (bool_type w rt false) "pyGenericServices" json
    deprecated ← present_of (bool_type w rt false) "deprecated" json
    cc_enable_arenas ← present_of (bool_type w rt true) "ccEnableArenas" json
    objc_class_prefix ← present_of (string_type w rt) "objcClassPrefix" json
    csharp_namespace ← present_of (string_type w rt) "csharpNamespace" json
    swift_prefix ← present_of (string_type w rt) "swiftPrefix" json
    php_class_prefix ← present_of (string_type w rt) "phpClassPrefix" json
    php_namespace ← present_of (string_type w rt) "phpNamespace" json
    php_metadata_namespace ← present_of (string_type w rt) "phpMetadataNamespace" json
    ruby_package ← present_of (string_type w rt) "rubyPackage" json
    features ← message_of (FeatureSet.from_json w rt) "features" json
    uninterpreted_option ←
        messages_of (UninterpretedOption.from_json w rt) "uninterpretedOption" json
    ok (record {
      java_package = java_package;
      java_outer_classname = java_outer_classname;
      java_multiple_files = java_multiple_files;
      java_generate_equals_and_hash = java_generate_equals_and_hash;
      java_string_check_utf8 = java_string_check_utf8;
      optimize_for = optimize_for;
      go_package = go_package;
      cc_generic_services = cc_generic_services;
      java_generic_services = java_generic_services;
      py_generic_services = py_generic_services;
      deprecated = deprecated;
      cc_enable_arenas = cc_enable_arenas;
      objc_class_prefix = objc_class_prefix;
      csharp_namespace = csharp_namespace;
      swift_prefix = swift_prefix;
      php_class_prefix = php_class_prefix;
      php_namespace = php_namespace;
      php_metadata_namespace = php_metadata_namespace;
      ruby_package = ruby_package;
      features = features;
      uninterpreted_option = uninterpreted_option;
    })

  unfoldable pub to_json : FileOptions → Value
  to_json message = build (
      present_entry (string_type w rt) "javaPackage" message.java_package
      ∷ present_entry (string_type w rt) "javaOuterClassname" message.java_outer_classname
      ∷ present_entry (bool_type w rt false) "javaMultipleFiles" message.java_multiple_files
      ∷ present_entry (bool_type w rt false) "javaGenerateEqualsAndHash"
          message.java_generate_equals_and_hash
      ∷ present_entry (bool_type w rt false) "javaStringCheckUtf8" message.java_string_check_utf8
      ∷ present_entry (member_type w rt FileOptionsOptimizeMode.fns 1) "optimizeFor"
          message.optimize_for
      ∷ present_entry (string_type w rt) "goPackage" message.go_package
      ∷ present_entry (bool_type w rt false) "ccGenericServices" message.cc_generic_services
      ∷ present_entry (bool_type w rt false) "javaGenericServices" message.java_generic_services
      ∷ present_entry (bool_type w rt false) "pyGenericServices" message.py_generic_services
      ∷ present_entry (bool_type w rt false) "deprecated" message.deprecated
      ∷ present_entry (bool_type w rt true) "ccEnableArenas" message.cc_enable_arenas
      ∷ present_entry (string_type w rt) "objcClassPrefix" message.objc_class_prefix
      ∷ present_entry (string_type w rt) "csharpNamespace" message.csharp_namespace
      ∷ present_entry (string_type w rt) "swiftPrefix" message.swift_prefix
      ∷ present_entry (string_type w rt) "phpClassPrefix" message.php_class_prefix
      ∷ present_entry (string_type w rt) "phpNamespace" message.php_namespace
      ∷ present_entry (string_type w rt) "phpMetadataNamespace" message.php_metadata_namespace
      ∷ present_entry (string_type w rt) "rubyPackage" message.ruby_package
      ∷ message_entry (FeatureSet.to_json w rt) "features" message.features
      ∷ array_entry (UninterpretedOption.to_json w rt) "uninterpretedOption"
          message.uninterpreted_option
      ∷ [])

unfoldable pub from_partial : FileOptionsPartial → FileOptions
from_partial object = record {
  java_package = or_present object.java_package "";
  java_outer_classname = or_present object.java_outer_classname "";
  java_multiple_files = or_present object.java_multiple_files false;
  java_generate_equals_and_hash = or_present object.java_generate_equals_and_hash false;
  java_string_check_utf8 = or_present object.java_string_check_utf8 false;
  optimize_for = or_present object.optimize_for (pos 1);
  go_package = or_present object.go_package "";
  cc_generic_services = or_present object.cc_generic_services false;
  java_generic_services = or_present object.java_generic_services false;
  py_generic_services = or_present object.py_generic_services false;
  deprecated = or_present object.deprecated false;
  cc_enable_arenas = or_present object.cc_enable_arenas true;
  objc_class_prefix = or_present object.objc_class_prefix "";
  csharp_namespace = or_present object.csharp_namespace "";
  swift_prefix = or_present object.swift_prefix "";
  php_class_prefix = or_present object.php_class_prefix "";
  php_namespace = or_present object.php_namespace "";
  php_metadata_namespace = or_present object.php_metadata_namespace "";
  ruby_package = or_present object.ruby_package "";
  features = map_option FeatureSet.from_partial object.features;
  uninterpreted_option = map_or_empty UninterpretedOption.from_partial object.uninterpreted_option;
}

-- The partial message with no property.
abbrev pub empty : FileOptionsPartial
empty = record {
  java_package = none;
  java_outer_classname = none;
  java_multiple_files = none;
  java_generate_equals_and_hash = none;
  java_string_check_utf8 = none;
  optimize_for = none;
  go_package = none;
  cc_generic_services = none;
  java_generic_services = none;
  py_generic_services = none;
  deprecated = none;
  cc_enable_arenas = none;
  objc_class_prefix = none;
  csharp_namespace = none;
  swift_prefix = none;
  php_class_prefix = none;
  php_namespace = none;
  php_metadata_namespace = none;
  ruby_package = none;
  features = none;
  uninterpreted_option = none;
}

-- create(base?): `base ?? {}`
unfoldable pub create : Option FileOptionsPartial → FileOptions
unfolding or_else
create object = from_partial (or_else object empty)

-- A message is a partial message.
unfoldable pub embed : FileOptions → FileOptionsPartial
embed m = record {
  java_package = m.java_package;
  java_outer_classname = m.java_outer_classname;
  java_multiple_files = m.java_multiple_files;
  java_generate_equals_and_hash = m.java_generate_equals_and_hash;
  java_string_check_utf8 = m.java_string_check_utf8;
  optimize_for = m.optimize_for;
  go_package = m.go_package;
  cc_generic_services = m.cc_generic_services;
  java_generic_services = m.java_generic_services;
  py_generic_services = m.py_generic_services;
  deprecated = m.deprecated;
  cc_enable_arenas = m.cc_enable_arenas;
  objc_class_prefix = m.objc_class_prefix;
  csharp_namespace = m.csharp_namespace;
  swift_prefix = m.swift_prefix;
  php_class_prefix = m.php_class_prefix;
  php_namespace = m.php_namespace;
  php_metadata_namespace = m.php_metadata_namespace;
  ruby_package = m.ruby_package;
  features = map_option FeatureSet.embed m.features;
  uninterpreted_option = some (map UninterpretedOption.embed m.uninterpreted_option);
}

abbrev pub fns : Wire → Runtime → MessageFns FileOptions FileOptionsPartial
fns w rt = record {
  encode = encode w rt;
  decode = decode w rt;
  from_json = from_json w rt;
  to_json = to_json w rt;
  create = create;
  from_partial = from_partial;
}
