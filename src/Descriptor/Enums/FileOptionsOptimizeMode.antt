-- ===== src/Descriptor/Enums/FileOptionsOptimizeMode.antt =====
-- enum FileOptions_OptimizeMode of gen/ts/google/protobuf/descriptor.ts, with its JSON functions.
use merkle_proof_service.Prelude.{ℕ, String, refl, Option, some, [], ◌∷◌, inl, inr}
use merkle_proof_service.Json.Value.{Value}
use merkle_proof_service.Json.Enum.{
  EnumFns, unnumbered, case_of, matches, switch_enum, ReadsName, ReadsNumber, IsEnum,
  switch_enum-StandsFor,
}

pub data FileOptionsOptimizeMode : Type 0 where
  speed : FileOptionsOptimizeMode
  code_size : FileOptionsOptimizeMode
  lite_runtime : FileOptionsOptimizeMode
  unrecognized : FileOptionsOptimizeMode

-- The numbers of the enum.
abbrev pub code : FileOptionsOptimizeMode → Option ℕ
code speed = some 1
code code_size = some 2
code lite_runtime = some 3
code unrecognized = unnumbered

-- fileOptions_OptimizeModeFromJSON
unfoldable pub from_json : Value → FileOptionsOptimizeMode
from_json v =
    switch_enum
      (case_of 1 "SPEED" speed
        ∷ case_of 2 "CODE_SIZE" code_size
        ∷ case_of 3 "LITE_RUNTIME" lite_runtime
        ∷ [])
      unrecognized v

-- fileOptions_OptimizeModeToJSON
unfoldable pub to_json : FileOptionsOptimizeMode → String
to_json speed = "SPEED"
to_json code_size = "CODE_SIZE"
to_json lite_runtime = "LITE_RUNTIME"
to_json unrecognized = "UNRECOGNIZED"

name_read_back : (e : FileOptionsOptimizeMode) → ReadsName unrecognized code from_json to_json e
unfolding from_json to_json switch_enum matches
name_read_back speed = refl
name_read_back code_size = refl
name_read_back lite_runtime = refl
name_read_back unrecognized = refl

number_read_back : (e : FileOptionsOptimizeMode) → ReadsNumber unrecognized code from_json to_json e
unfolding from_json switch_enum matches
number_read_back speed = inr (1, refl, refl)
number_read_back code_size = inr (2, refl, refl)
number_read_back lite_runtime = inr (3, refl, refl)
number_read_back unrecognized = inl (refl, refl)

pub FileOptionsOptimizeMode-IsEnum : IsEnum unrecognized code from_json to_json
unfolding from_json to_json
FileOptionsOptimizeMode-IsEnum = record {
  by_name = name_read_back;
  by_number = number_read_back;
  only = λ v. switch_enum-StandsFor unrecognized code from_json to_json _ v refl;
}

abbrev pub fns : EnumFns FileOptionsOptimizeMode
fns = record { code = code; from_json = from_json; to_json = to_json }
