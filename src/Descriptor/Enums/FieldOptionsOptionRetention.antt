-- ===== src/Descriptor/Enums/FieldOptionsOptionRetention.antt =====
-- enum FieldOptions_OptionRetention of gen/ts/google/protobuf/descriptor.ts, with its JSON functions.
use merkle_proof_service.Prelude.{ℕ, String, refl, Option, some, [], ◌∷◌, inl, inr}
use merkle_proof_service.Json.Value.{Value}
use merkle_proof_service.Json.Enum.{
  EnumFns, unnumbered, case_of, matches, switch_enum, ReadsName, ReadsNumber, IsEnum,
  switch_enum-StandsFor,
}

pub data FieldOptionsOptionRetention : Type 0 where
  retention_unknown : FieldOptionsOptionRetention
  retention_runtime : FieldOptionsOptionRetention
  retention_source : FieldOptionsOptionRetention
  unrecognized : FieldOptionsOptionRetention

-- The numbers of the enum.
abbrev pub code : FieldOptionsOptionRetention → Option ℕ
code retention_unknown = some 0
code retention_runtime = some 1
code retention_source = some 2
code unrecognized = unnumbered

-- fieldOptions_OptionRetentionFromJSON
unfoldable pub from_json : Value → FieldOptionsOptionRetention
from_json v =
    switch_enum
      (case_of 0 "RETENTION_UNKNOWN" retention_unknown
        ∷ case_of 1 "RETENTION_RUNTIME" retention_runtime
        ∷ case_of 2 "RETENTION_SOURCE" retention_source
        ∷ [])
      unrecognized v

-- fieldOptions_OptionRetentionToJSON
unfoldable pub to_json : FieldOptionsOptionRetention → String
to_json retention_unknown = "RETENTION_UNKNOWN"
to_json retention_runtime = "RETENTION_RUNTIME"
to_json retention_source = "RETENTION_SOURCE"
to_json unrecognized = "UNRECOGNIZED"

name_read_back : (e : FieldOptionsOptionRetention) → ReadsName unrecognized code from_json to_json e
unfolding from_json to_json switch_enum matches
name_read_back retention_unknown = refl
name_read_back retention_runtime = refl
name_read_back retention_source = refl
name_read_back unrecognized = refl

number_read_back :
    (e : FieldOptionsOptionRetention) → ReadsNumber unrecognized code from_json to_json e
unfolding from_json switch_enum matches
number_read_back retention_unknown = inr (0, refl, refl)
number_read_back retention_runtime = inr (1, refl, refl)
number_read_back retention_source = inr (2, refl, refl)
number_read_back unrecognized = inl (refl, refl)

pub FieldOptionsOptionRetention-IsEnum : IsEnum unrecognized code from_json to_json
unfolding from_json to_json
FieldOptionsOptionRetention-IsEnum = record {
  by_name = name_read_back;
  by_number = number_read_back;
  only = λ v. switch_enum-StandsFor unrecognized code from_json to_json _ v refl;
}

abbrev pub fns : EnumFns FieldOptionsOptionRetention
fns = record { code = code; from_json = from_json; to_json = to_json }
