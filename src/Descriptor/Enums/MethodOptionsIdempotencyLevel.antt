-- ===== src/Descriptor/Enums/MethodOptionsIdempotencyLevel.antt =====
-- enum MethodOptions_IdempotencyLevel of gen/ts/google/protobuf/descriptor.ts, with its JSON functions.
use merkle_proof_service.Prelude.{ℕ, String, refl, Option, some, [], ◌∷◌, inl, inr}
use merkle_proof_service.Json.Value.{Value}
use merkle_proof_service.Json.Enum.{
  EnumFns, unnumbered, case_of, matches, switch_enum, ReadsName, ReadsNumber, IsEnum,
  switch_enum-StandsFor,
}

pub data MethodOptionsIdempotencyLevel : Type 0 where
  idempotency_unknown : MethodOptionsIdempotencyLevel
  no_side_effects : MethodOptionsIdempotencyLevel
  idempotent : MethodOptionsIdempotencyLevel
  unrecognized : MethodOptionsIdempotencyLevel

-- The numbers of the enum.
abbrev pub code : MethodOptionsIdempotencyLevel → Option ℕ
code idempotency_unknown = some 0
code no_side_effects = some 1
code idempotent = some 2
code unrecognized = unnumbered

-- methodOptions_IdempotencyLevelFromJSON
unfoldable pub from_json : Value → MethodOptionsIdempotencyLevel
from_json v =
    switch_enum
      (case_of 0 "IDEMPOTENCY_UNKNOWN" idempotency_unknown
        ∷ case_of 1 "NO_SIDE_EFFECTS" no_side_effects
        ∷ case_of 2 "IDEMPOTENT" idempotent
        ∷ [])
      unrecognized v

-- methodOptions_IdempotencyLevelToJSON
unfoldable pub to_json : MethodOptionsIdempotencyLevel → String
to_json idempotency_unknown = "IDEMPOTENCY_UNKNOWN"
to_json no_side_effects = "NO_SIDE_EFFECTS"
to_json idempotent = "IDEMPOTENT"
to_json unrecognized = "UNRECOGNIZED"

name_read_back :
    (e : MethodOptionsIdempotencyLevel) → ReadsName unrecognized code from_json to_json e
unfolding from_json to_json switch_enum matches
name_read_back idempotency_unknown = refl
name_read_back no_side_effects = refl
name_read_back idempotent = refl
name_read_back unrecognized = refl

number_read_back :
    (e : MethodOptionsIdempotencyLevel) → ReadsNumber unrecognized code from_json to_json e
unfolding from_json switch_enum matches
number_read_back idempotency_unknown = inr (0, refl, refl)
number_read_back no_side_effects = inr (1, refl, refl)
number_read_back idempotent = inr (2, refl, refl)
number_read_back unrecognized = inl (refl, refl)

pub MethodOptionsIdempotencyLevel-IsEnum : IsEnum unrecognized code from_json to_json
unfolding from_json to_json
MethodOptionsIdempotencyLevel-IsEnum = record {
  by_name = name_read_back;
  by_number = number_read_back;
  only = λ v. switch_enum-StandsFor unrecognized code from_json to_json _ v refl;
}

abbrev pub fns : EnumFns MethodOptionsIdempotencyLevel
fns = record { code = code; from_json = from_json; to_json = to_json }
