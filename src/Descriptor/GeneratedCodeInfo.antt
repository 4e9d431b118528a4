-- ===== src/Descriptor/GeneratedCodeInfo.antt =====
-- GeneratedCodeInfo of gen/ts/google/protobuf/descriptor.ts.
pub mod Laws
use merkle_proof_service.Descriptor.GeneratedCodeInfoAnnotation.{
  GeneratedCodeInfoAnnotation, GeneratedCodeInfoAnnotationPartial,
}
use merkle_proof_service.Descriptor.GeneratedCodeInfoAnnotation
use merkle_proof_service.Message.Statements.{
  Option, none, some, List, [], ◌∷◌, map, Outcome, ok, ◌>>=◌, Wire, Writer, write_messages, Case,
  case_at, Decoder, decode_with, on_message, Value, Runtime, messages_of, array_entry, build,
  or_else, map_or_empty, MessageFns, push,
}

pub record GeneratedCodeInfo : Type 0 where
  pub annotation : List GeneratedCodeInfoAnnotation

-- DeepPartial<GeneratedCodeInfo>: `none` for a property that is missing or null.
pub record GeneratedCodeInfoPartial : Type 0 where
  pub annotation : Option (List GeneratedCodeInfoAnnotationPartial)

-- createBaseGeneratedCodeInfo
abbrev pub base : GeneratedCodeInfo
base = record { annotation = [] }

module _ (w : Wire) (rt : Runtime) where
  unfoldable pub encode : GeneratedCodeInfo → Writer → Writer
  encode message = write_messages w (GeneratedCodeInfoAnnotation.encode w rt) 10 message.annotation

  -- The cases of the switch in `decode`.
  abbrev pub cases : List (Case GeneratedCodeInfo)
  cases =
      case_at 1 10 (
        on_message w (GeneratedCodeInfoAnnotation.decode w rt)
          (push (λ m. m.annotation) (λ m v. record m { annotation = v })))
      ∷ []

  unfoldable pub decode : Decoder GeneratedCodeInfo
  decode = decode_with w cases base

  unfoldable pub from_json : Value → Outcome GeneratedCodeInfo
  from_json json = do
    annotation ← messages_of (GeneratedCodeInfoAnnotation.from_json w rt) "annotation" json
    ok (record { annotation = annotation })

  unfoldable pub to_json : GeneratedCodeInfo → Value
  to_json message =
      build (
        array_entry (GeneratedCodeInfoAnnotation.to_json w rt) "annotation" message.annotation ∷ [])

unfoldable pub from_partial : GeneratedCodeInfoPartial → GeneratedCodeInfo
from_partial object = record {
  annotation = map_or_empty GeneratedCodeInfoAnnotation.from_partial object.annotation;
}

-- The partial message with no property.
abbrev pub empty : GeneratedCodeInfoPartial
empty = record { annotation = none }

-- create(base?): `base ?? {}`
unfoldable pub create : Option GeneratedCodeInfoPartial → GeneratedCodeInfo
unfolding or_else
create object = from_partial (or_else object empty)

-- A message is a partial message.
unfoldable pub embed : GeneratedCodeInfo → GeneratedCodeInfoPartial
embed m = record { annotation = some (map GeneratedCodeInfoAnnotation.embed m.annotation) }

abbrev pub fns : Wire → Runtime → MessageFns GeneratedCodeInfo GeneratedCodeInfoPartial
fns w rt = record {
  encode = encode w rt;
  decode = decode w rt;
  from_json = from_json w rt;
  to_json = to_json w rt;
  create = create;
  from_partial = from_partial;
}
