-- ===== src/Descriptor/Enums/Edition.antt =====
-- enum Edition of gen/ts/google/protobuf/descriptor.ts, with its JSON functions.
use merkle_proof_service.Prelude.{ℕ, String, refl, Option, some, [], ◌∷◌, inl, inr}
use merkle_proof_service.Json.Value.{Value}
use merkle_proof_service.Json.Enum.{
  EnumFns, unnumbered, case_of, matches, switch_enum, ReadsName, ReadsNumber, IsEnum,
  switch_enum-StandsFor,
}

pub data Edition : Type 0 where
  edition_unknown : Edition
  edition_legacy : Edition
  edition_proto2 : Edition
  edition_proto3 : Edition
  edition_2023 : Edition
  edition_2024 : Edition
  edition_1_test_only : Edition
  edition_2_test_only : Edition
  edition_99997_test_only : Edition
  edition_99998_test_only : Edition
  edition_99999_test_only : Edition
  edition_max : Edition
  unrecognized : Edition

-- The numbers of the enum.
abbrev pub code : Edition → Option ℕ
code edition_unknown = some 0
code edition_legacy = some 900
code edition_proto2 = some 998
code edition_proto3 = some 999
code edition_2023 = some 1000
code edition_2024 = some 1001
code edition_1_test_only = some 1
code edition_2_test_only = some 2
code edition_99997_test_only = some 99997
code edition_99998_test_only = some 99998
code edition_99999_test_only = some 99999
code edition_max = some 2147483647
code unrecognized = unnumbered

-- editionFromJSON
unfoldable pub from_json : Value → Edition
from_json v =
    switch_enum
      (case_of 0 "EDITION_UNKNOWN" edition_unknown
        ∷ case_of 900 "EDITION_LEGACY" edition_legacy
        ∷ case_of 998 "EDITION_PROTO2" edition_proto2
        ∷ case_of 999 "EDITION_PROTO3" edition_proto3
        ∷ case_of 1000 "EDITION_2023" edition_2023
        ∷ case_of 1001 "EDITION_2024" edition_2024
        ∷ case_of 1 "EDITION_1_TEST_ONLY" edition_1_test_only
        ∷ case_of 2 "EDITION_2_TEST_ONLY" edition_2_test_only
        ∷ case_of 99997 "EDITION_99997_TEST_ONLY" edition_99997_test_only
        ∷ case_of 99998 "EDITION_99998_TEST_ONLY" edition_99998_test_only
        ∷ case_of 99999 "EDITION_99999_TEST_ONLY" edition_99999_test_only
        ∷ case_of 2147483647 "EDITION_MAX" edition_max
        ∷ [])
      unrecognized v

-- editionToJSON
unfoldable pub to_json : Edition → String
to_json edition_unknown = "EDITION_UNKNOWN"
to_json edition_legacy = "EDITION_LEGACY"
to_json edition_proto2 = "EDITION_PROTO2"
to_json edition_proto3 = "EDITION_PROTO3"
to_json edition_2023 = "EDITION_2023"
to_json edition_2024 = "EDITION_2024"
to_json edition_1_test_only = "EDITION_1_TEST_ONLY"
to_json edition_2_test_only = "EDITION_2_TEST_ONLY"
to_json edition_99997_test_only = "EDITION_99997_TEST_ONLY"
to_json edition_99998_test_only = "EDITION_99998_TEST_ONLY"
to_json edition_99999_test_only = "EDITION_99999_TEST_ONLY"
to_json edition_max = "EDITION_MAX"
to_json unrecognized = "UNRECOGNIZED"

name_read_back : (e : Edition) → ReadsName unrecognized code from_json to_json e
unfolding from_json to_json switch_enum matches
name_read_back edition_unknown = refl
name_read_back edition_legacy = refl
name_read_back edition_proto2 = refl
name_read_back edition_proto3 = refl
name_read_back edition_2023 = refl
name_read_back edition_2024 = refl
name_read_back edition_1_test_only = refl
name_read_back edition_2_test_only = refl
name_read_back edition_99997_test_only = refl
name_read_back edition_99998_test_only = refl
name_read_back edition_99999_test_only = refl
name_read_back edition_max = refl
name_read_back unrecognized = refl

number_read_back : (e : Edition) → ReadsNumber unrecognized code from_json to_json e
unfolding from_json switch_enum matches
number_read_back edition_unknown = inr (0, refl, refl)
number_read_back edition_legacy = inr (900, refl, refl)
number_read_back edition_proto2 = inr (998, refl, refl)
number_read_back edition_proto3 = inr (999, refl, refl)
number_read_back edition_2023 = inr (1000, refl, refl)
number_read_back edition_2024 = inr (1001, refl, refl)
number_read_back edition_1_test_only = inr (1, refl, refl)
number_read_back edition_2_test_only = inr (2, refl, refl)
number_read_back edition_99997_test_only = inr (99997, refl, refl)
number_read_back edition_99998_test_only = inr (99998, refl, refl)
number_read_back edition_99999_test_only = inr (99999, refl, refl)
number_read_back edition_max = inr (2147483647, refl, refl)
number_read_back unrecognized = inl (refl, refl)

pub Edition-IsEnum : IsEnum unrecognized code from_json to_json
unfolding from_json to_json
Edition-IsEnum = record {
  by_name = name_read_back;
  by_number = number_read_back;
  only = λ v. switch_enum-StandsFor unrecognized code from_json to_json _ v refl;
}

abbrev pub fns : EnumFns Edition
fns = record { code = code; from_json = from_json; to_json = to_json }
