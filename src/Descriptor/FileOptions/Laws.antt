-- ===== src/Descriptor/FileOptions/Laws.antt =====
-- FileOptions of gen/ts/google/protobuf/descriptor.ts: its fields, one by one.
use merkle_proof_service.Descriptor.FileOptions.{
  FileOptions, FileOptionsPartial, base, encode, decode, from_json, to_json, from_partial, create,
  empty, embed, fns,
}
use merkle_proof_service.Descriptor.FeatureSet
use merkle_proof_service.Descriptor.UninterpretedOption
use merkle_proof_service.Descriptor.Enums.FileOptionsOptimizeMode
use merkle_proof_service.Message.Statements.{
  pos, true, false, List, [], ◌∷◌, map, Wire, Runtime, map_option, or_present,
}
use merkle_proof_service.Message.Fields.{
  refl, arith, All, AllOption, IsLawful, switch, IsRuntime, string_type-IsScalar,
  bool_type-IsScalar, member_type-IsScalar, Row, Message, free, scalar_row, Fitting, message_row,
  messages_row, OfRows, rows-Message, IsMember, IsReadAs, Message-IsReadAs,
}

-- What is read of a message: a field that is `undefined` has its default.
unfoldable pub normal : FileOptions → FileOptions
normal m = record {
  java_package = or_present m.java_package "";
  java_outer_classname = or_present m.java_outer_classname "";
  java_multiple_files = or_present m.java_multiple_files false;
  java_generate_equals_and_hash = or_present m.java_generate_equals_and_hash false;
  java_string_check_utf8 = or_present m.java_string_check_utf8 false;
  optimize_for = or_present m.optimize_for (pos 1);
  go_package = or_present m.go_package "";
  cc_generic_services = or_present m.cc_generic_services false;
  java_generic_services = or_present m.java_generic_services false;
  py_generic_services = or_present m.py_generic_services false;
  deprecated = or_present m.deprecated false;
  cc_enable_arenas = or_present m.cc_enable_arenas true;
  objc_class_prefix = or_present m.objc_class_prefix "";
  csharp_namespace = or_present m.csharp_namespace "";
  swift_prefix = or_present m.swift_prefix "";
  php_class_prefix = or_present m.php_class_prefix "";
  php_namespace = or_present m.php_namespace "";
  php_metadata_namespace = or_present m.php_metadata_namespace "";
  ruby_package = or_present m.ruby_package "";
  features = map_option FeatureSet.Laws.normal m.features;
  uninterpreted_option = map UninterpretedOption.Laws.normal m.uninterpreted_option;
}

-- The values that the fields can hold.
abbrev pub IsValid : Wire → Runtime → FileOptions → Type 0
IsValid w rt m =
    (AllOption (IsMember FileOptionsOptimizeMode.fns) m.optimize_for)
    × (AllOption (Fitting (FeatureSet.Laws.IsValid w rt) (FeatureSet.encode w rt)) m.features)
    × (All (Fitting (UninterpretedOption.Laws.IsValid w rt) (UninterpretedOption.encode w rt))
        m.uninterpreted_option)

module _ (w : Wire) (L : IsLawful w) (rt : Runtime) (R : IsRuntime rt) where
  abbrev pub rows : List (Row w rt FileOptions FileOptionsPartial)
  rows =
      scalar_row w L rt (string_type-IsScalar w L rt R) 10 (omega arith) "javaPackage"
        (λ m. m.java_package) (λ m v. record m { java_package = v }) (λ p. p.java_package)
      ∷ scalar_row w L rt (string_type-IsScalar w L rt R) 66 (omega arith) "javaOuterClassname"
          (λ m. m.java_outer_classname) (λ m v. record m { java_outer_classname = v })
          (λ p. p.java_outer_classname)
      ∷ scalar_row w L rt (bool_type-IsScalar w L rt R false) 80 (omega arith) "javaMultipleFiles"
          (λ m. m.java_multiple_files) (λ m v. record m { java_multiple_files = v })
          (λ p. p.java_multiple_files)
      ∷ scalar_row w L rt (bool_type-IsScalar w L rt R false) 160 (omega arith)
          "javaGenerateEqualsAndHash" (λ m. m.java_generate_equals_and_hash)
          (λ m v. record m { java_generate_equals_and_hash = v })
          (λ p. p.java_generate_equals_and_hash)
      ∷ scalar_row w L rt (bool_type-IsScalar w L rt R false) 216 (omega arith)
          "javaStringCheckUtf8" (λ m. m.java_string_check_utf8)
          (λ m v. record m { java_string_check_utf8 = v }) (λ p. p.java_string_check_utf8)
      ∷ scalar_row w L rt
          (member_type-IsScalar w L rt R FileOptionsOptimizeMode.unrecognized
            FileOptionsOptimizeMode.fns FileOptionsOptimizeMode.FileOptionsOptimizeMode-IsEnum 1)
          72 (omega arith) "optimizeFor" (λ m. m.optimize_for)
          (λ m v. record m { optimize_for = v }) (λ p. p.optimize_for)
      ∷ scalar_row w L rt (string_type-IsScalar w L rt R) 90 (omega arith) "goPackage"
          (λ m. m.go_package) (λ m v. record m { go_package = v }) (λ p. p.go_package)
      ∷ scalar_row w L rt (bool_type-IsScalar w L rt R false) 128 (omega arith) "ccGenericServices"
          (λ m. m.cc_generic_services) (λ m v. record m { cc_generic_services = v })
          (λ p. p.cc_generic_services)
      ∷ scalar_row w L rt (bool_type-IsScalar w L rt R false) 136 (omega arith)
          "javaGenericServices" (λ m. m.java_generic_services)
          (λ m v. record m { java_generic_services = v }) (λ p. p.java_generic_services)
      ∷ scalar_row w L rt (bool_type-IsScalar w L rt R false) 144 (omega arith) "pyGenericServices"
          (λ m. m.py_generic_services) (λ m v. record m { py_generic_services = v })
          (λ p. p.py_generic_services)
      ∷ scalar_row w L rt (bool_type-IsScalar w L rt R false) 184 (omega arith) "deprecated"
          (λ m. m.deprecated) (λ m v. record m { deprecated = v }) (λ p. p.deprecated)
      ∷ scalar_row w L rt (bool_type-IsScalar w L rt R true) 248 (omega arith) "ccEnableArenas"
          (λ m. m.cc_enable_arenas) (λ m v. record m { cc_enable_arenas = v })
          (λ p. p.cc_enable_arenas)
      ∷ scalar_row w L rt (string_type-IsScalar w L rt R) 290 (omega arith) "objcClassPrefix"
          (λ m. m.objc_class_prefix) (λ m v. record m { objc_class_prefix = v })
          (λ p. p.objc_class_prefix)
      ∷ scalar_row w L rt (string_type-IsScalar w L rt R) 298 (omega arith) "csharpNamespace"
          (λ m. m.csharp_namespace) (λ m v. record m { csharp_namespace = v })
          (λ p. p.csharp_namespace)
      ∷ scalar_row w L rt (string_type-IsScalar w L rt R) 314 (omega arith) "swiftPrefix"
          (λ m. m.swift_prefix) (λ m v. record m { swift_prefix = v }) (λ p. p.swift_prefix)
      ∷ scalar_row w L rt (string_type-IsScalar w L rt R) 322 (omega arith) "phpClassPrefix"
          (λ m. m.php_class_prefix) (λ m v. record m { php_class_prefix = v })
          (λ p. p.php_class_prefix)
      ∷ scalar_row w L rt (string_type-IsScalar w L rt R) 330 (omega arith) "phpNamespace"
          (λ m. m.php_namespace) (λ m v. record m { php_namespace = v }) (λ p. p.php_namespace)
      ∷ scalar_row w L rt (string_type-IsScalar w L rt R) 354 (omega arith) "phpMetadataNamespace"
          (λ m. m.php_metadata_namespace) (λ m v. record m { php_metadata_namespace = v })
          (λ p. p.php_metadata_namespace)
      ∷ scalar_row w L rt (string_type-IsScalar w L rt R) 362 (omega arith) "rubyPackage"
          (λ m. m.ruby_package) (λ m v. record m { ruby_package = v }) (λ p. p.ruby_package)
      ∷ message_row w L (FeatureSet.Laws.FeatureSet-Message w L rt R) 402 (omega arith) "features"
          (λ m. m.features) (λ m v. record m { features = v }) (λ m a b. refl) (λ p. p.features)
      ∷ messages_row w L (UninterpretedOption.Laws.UninterpretedOption-Message w L rt R) 7994
          (omega arith) "uninterpretedOption" (λ m. m.uninterpreted_option)
          (λ m v. record m { uninterpreted_option = v }) (λ m a b. refl)
          (λ p. p.uninterpreted_option)
      ∷ []

  pub FileOptions-OfRows : OfRows (fns w rt) embed normal rows base empty
  unfolding encode decode from_json to_json from_partial create embed normal switch
  FileOptions-OfRows = refl

  abbrev pub FileOptions-Message : Message rt FileOptions FileOptionsPartial
  FileOptions-Message =
      rows-Message L (fns w rt) embed normal rows base empty FileOptions-OfRows (IsValid w rt)
        (λ m h. (
          free m.java_package,
          (
            free m.java_outer_classname,
            (
              free m.java_multiple_files,
              (
                free m.java_generate_equals_and_hash,
                (
                  free m.java_string_check_utf8,
                  (
                    h.0,
                    (
                      free m.go_package,
                      (
                        free m.cc_generic_services,
                        (
                          free m.java_generic_services,
                          (
                            free m.py_generic_services,
                            (
                              free m.deprecated,
                              (
                                free m.cc_enable_arenas,
                                (
                                  free m.objc_class_prefix,
                                  (
                                    free m.csharp_namespace,
                                    (
                                      free m.swift_prefix,
                                      (
                                        free m.php_class_prefix,
                                        (
                                          free m.php_namespace,
                                          (
                                            free m.php_metadata_namespace,
                                            (free m.ruby_package, (h.1, (h.2, tt))),
                                          ),
                                        ),
                                      ),
                                    ),
                                  ),
                                ),
                              ),
                            ),
                          ),
                        ),
                      ),
                    ),
                  ),
                ),
              ),
            ),
          ),
        ))

-- Over a lawful wire and runtime, every FileOptions whose optimizeFor is a number of its enum and
-- whose features and uninterpreted options are valid, of lengths below 2 ^ 32, is read as `normal`
-- of it, which has the default for each `undefined`: from its bytes, as a whole buffer and inside a
-- longer one, from its JSON and from its partial form, also by `create`; and `encode` appends to
-- what the writer holds.
pub FileOptions-IsReadAs :
    (w : Wire)
    → IsLawful w
    → (rt : Runtime) → IsRuntime rt
    → (m : FileOptions) → IsValid w rt m
    → IsReadAs (fns w rt) embed m (normal m)
FileOptions-IsReadAs w L rt R m valid = Message-IsReadAs R (FileOptions-Message w L rt R) m valid
