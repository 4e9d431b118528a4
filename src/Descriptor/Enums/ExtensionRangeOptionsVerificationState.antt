-- ===== src/Descriptor/Enums/ExtensionRangeOptionsVerificationState.antt =====
-- enum ExtensionRangeOptions_VerificationState of gen/ts/google/protobuf/descriptor.ts, with its JSON functions.
use merkle_proof_service.Prelude.{ℕ, String, refl, Option, some, [], ◌∷◌, inl, inr}
use merkle_proof_service.Json.Value.{Value}
use merkle_proof_service.Json.Enum.{
  EnumFns, unnumbered, case_of, matches, switch_enum, ReadsName, ReadsNumber, IsEnum,
  switch_enum-StandsFor,
}

pub data ExtensionRangeOptionsVerificationState : Type 0 where
  declaration : ExtensionRangeOptionsVerificationState
  unverified : ExtensionRangeOptionsVerificationState
  unrecognized : ExtensionRangeOptionsVerificationState

-- The numbers of the enum.
abbrev pub code : ExtensionRangeOptionsVerificationState → Option ℕ
code declaration = some 0
code unverified = some 1
code unrecognized = unnumbered

-- extensionRangeOptions_VerificationStateFromJSON
unfoldable pub from_json : Value → ExtensionRangeOptionsVerificationState
from_json v =
    switch_enum (case_of 0 "DECLARATION" declaration ∷ case_of 1 "UNVERIFIED" unverified ∷ [])
      unrecognized v

-- extensionRangeOptions_VerificationStateToJSON
unfoldable pub to_json : ExtensionRangeOptionsVerificationState → String
to_json declaration = "DECLARATION"
to_json unverified = "UNVERIFIED"
to_json unrecognized = "UNRECOGNIZED"

name_read_back :
    (e : ExtensionRangeOptionsVerificationState) → ReadsName unrecognized code from_json to_json e
unfolding from_json to_json switch_enum matches
name_read_back declaration = refl
name_read_back unverified = refl
name_read_back unrecognized = refl

number_read_back :
    (e : ExtensionRangeOptionsVerificationState) → ReadsNumber unrecognized code from_json to_json e
unfolding from_json switch_enum matches
number_read_back declaration = inr (0, refl, refl)
number_read_back unverified = inr (1, refl, refl)
number_read_back unrecognized = inl (refl, refl)

pub ExtensionRangeOptionsVerificationState-IsEnum : IsEnum unrecognized code from_json to_json
unfolding from_json to_json
ExtensionRangeOptionsVerificationState-IsEnum = record {
  by_name = name_read_back;
  by_number = number_read_back;
  only = λ v. switch_enum-StandsFor unrecognized code from_json to_json _ v refl;
}

abbrev pub fns : EnumFns ExtensionRangeOptionsVerificationState
fns = record { code = code; from_json = from_json; to_json = to_json }
