-- ===== src/Descriptor/Enums/FeatureSetFieldPresence.antt =====
-- enum FeatureSet_FieldPresence of gen/ts/google/protobuf/descriptor.ts, with its JSON functions.
use merkle_proof_service.Prelude.{ℕ, String, refl, Option, some, [], ◌∷◌, inl, inr}
use merkle_proof_service.Json.Value.{Value}
use merkle_proof_service.Json.Enum.{
  EnumFns, unnumbered, case_of, matches, switch_enum, ReadsName, ReadsNumber, IsEnum,
  switch_enum-StandsFor,
}

pub data FeatureSetFieldPresence : Type 0 where
  field_presence_unknown : FeatureSetFieldPresence
  explicit : FeatureSetFieldPresence
  implicit : FeatureSetFieldPresence
  legacy_required : FeatureSetFieldPresence
  unrecognized : FeatureSetFieldPresence

-- The numbers of the enum.
abbrev pub code : FeatureSetFieldPresence → Option ℕ
code field_presence_unknown = some 0
code explicit = some 1
code implicit = some 2
code legacy_required = some 3
code unrecognized = unnumbered

-- featureSet_FieldPresenceFromJSON
unfoldable pub from_json : Value → FeatureSetFieldPresence
from_json v =
    switch_enum
      (case_of 0 "FIELD_PRESENCE_UNKNOWN" field_presence_unknown
        ∷ case_of 1 "EXPLICIT" explicit
        ∷ case_of 2 "IMPLICIT" implicit
        ∷ case_of 3 "LEGACY_REQUIRED" legacy_required
        ∷ [])
      unrecognized v

-- featureSet_FieldPresenceToJSON
unfoldable pub to_json : FeatureSetFieldPresence → String
to_json field_presence_unknown = "FIELD_PRESENCE_UNKNOWN"
to_json explicit = "EXPLICIT"
to_json implicit = "IMPLICIT"
to_json legacy_required = "LEGACY_REQUIRED"
to_json unrecognized = "UNRECOGNIZED"

name_read_back : (e : FeatureSetFieldPresence) → ReadsName unrecognized code from_json to_json e
unfolding from_json to_json switch_enum matches
name_read_back field_presence_unknown = refl
name_read_back explicit = refl
name_read_back implicit = refl
name_read_back legacy_required = refl
name_read_back unrecognized = refl

number_read_back : (e : FeatureSetFieldPresence) → ReadsNumber unrecognized code from_json to_json e
unfolding from_json switch_enum matches
number_read_back field_presence_unknown = inr (0, refl, refl)
number_read_back explicit = inr (1, refl, refl)
number_read_back implicit = inr (2, refl, refl)
number_read_back legacy_required = inr (3, refl, refl)
number_read_back unrecognized = inl (refl, refl)

pub FeatureSetFieldPresence-IsEnum : IsEnum unrecognized code from_json to_json
unfolding from_json to_json
FeatureSetFieldPresence-IsEnum = record {
  by_name = name_read_back;
  by_number = number_read_back;
  only = λ v. switch_enum-StandsFor unrecognized code from_json to_json _ v refl;
}

abbrev pub fns : EnumFns FeatureSetFieldPresence
fns = record { code = code; from_json = from_json; to_json = to_json }
