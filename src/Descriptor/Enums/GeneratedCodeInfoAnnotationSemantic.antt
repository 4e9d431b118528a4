-- ===== src/Descriptor/Enums/GeneratedCodeInfoAnnotationSemantic.antt =====
-- enum GeneratedCodeInfo_Annotation_Semantic of gen/ts/google/protobuf/descriptor.ts, with its JSON functions.
use merkle_proof_service.Prelude.{ℕ, String, refl, Option, some, [], ◌∷◌, inl, inr}
use merkle_proof_service.Json.Value.{Value}
use merkle_proof_service.Json.Enum.{
  EnumFns, unnumbered, case_of, matches, switch_enum, ReadsName, ReadsNumber, IsEnum,
  switch_enum-StandsFor,
}

pub data GeneratedCodeInfoAnnotationSemantic : Type 0 where
  none : GeneratedCodeInfoAnnotationSemantic
  set : GeneratedCodeInfoAnnotationSemantic
  alias : GeneratedCodeInfoAnnotationSemantic
  unrecognized : GeneratedCodeInfoAnnotationSemantic

-- The numbers of the enum.
abbrev pub code : GeneratedCodeInfoAnnotationSemantic → Option ℕ
code none = some 0
code set = some 1
code alias = some 2
code unrecognized = unnumbered

-- generatedCodeInfo_Annotation_SemanticFromJSON
unfoldable pub from_json : Value → GeneratedCodeInfoAnnotationSemantic
from_json v =
    switch_enum (case_of 0 "NONE" none ∷ case_of 1 "SET" set ∷ case_of 2 "ALIAS" alias ∷ [])
      unrecognized v

-- generatedCodeInfo_Annotation_SemanticToJSON
unfoldable pub to_json : GeneratedCodeInfoAnnotationSemantic → String
to_json none = "NONE"
to_json set = "SET"
to_json alias = "ALIAS"
to_json unrecognized = "UNRECOGNIZED"

name_read_back :
    (e : GeneratedCodeInfoAnnotationSemantic) → ReadsName unrecognized code from_json to_json e
unfolding from_json to_json switch_enum matches
name_read_back none = refl
name_read_back set = refl
name_read_back alias = refl
name_read_back unrecognized = refl

number_read_back :
    (e : GeneratedCodeInfoAnnotationSemantic) → ReadsNumber unrecognized code from_json to_json e
unfolding from_json switch_enum matches
number_read_back none = inr (0, refl, refl)
number_read_back set = inr (1, refl, refl)
number_read_back alias = inr (2, refl, refl)
number_read_back unrecognized = inl (refl, refl)

pub GeneratedCodeInfoAnnotationSemantic-IsEnum : IsEnum unrecognized code from_json to_json
unfolding from_json to_json
GeneratedCodeInfoAnnotationSemantic-IsEnum = record {
  by_name = name_read_back;
  by_number = number_read_back;
  only = λ v. switch_enum-StandsFor unrecognized code from_json to_json _ v refl;
}

abbrev pub fns : EnumFns GeneratedCodeInfoAnnotationSemantic
fns = record { code = code; from_json = from_json; to_json = to_json }
