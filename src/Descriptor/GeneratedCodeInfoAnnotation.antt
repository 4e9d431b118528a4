-- ===== src/Descriptor/GeneratedCodeInfoAnnotation.antt =====
-- GeneratedCodeInfo_Annotation of gen/ts/google/protobuf/descriptor.ts.
pub mod Laws
use merkle_proof_service.Descriptor.Enums.GeneratedCodeInfoAnnotationSemantic
use merkle_proof_service.Message.Statements.{
  ℤ, pos, String, Option, none, some, List, [], ◌∷◌, Outcome, ok, ◌>>=◌, Wire, Writer, ◌▸◌, Case,
  case_at, packed_at, Decoder, decode_with, Value, Runtime, messages_of, array_entry, build,
  or_else, map_or_empty, MessageFns, string_type, int32_type, member_type, write_present, on_scalar,
  present_of, present_entry, or_present, store, push, write_packed, on_int32, on_packed,
}

pub record GeneratedCodeInfoAnnotation : Type 0 where
  pub path : List ℤ
  pub source_file : Option String
  pub begin : Option ℤ
  pub end : Option ℤ
  pub semantic : Option ℤ

-- DeepPartial<GeneratedCodeInfo_Annotation>: `none` for a property that is missing or null.
pub record GeneratedCodeInfoAnnotationPartial : Type 0 where
  pub path : Option (List ℤ)
  pub source_file : Option String
  pub begin : Option ℤ
  pub end : Option ℤ
  pub semantic : Option ℤ

-- createBaseGeneratedCodeInfo_Annotation
abbrev pub base : GeneratedCodeInfoAnnotation
base = record {
  path = [];
  source_file = some "";
  begin = some (pos 0);
  end = some (pos 0);
  semantic = some (pos 0);
}

module _ (w : Wire) (rt : Runtime) where
  unfoldable pub encode : GeneratedCodeInfoAnnotation → Writer → Writer
  encode message =
      write_packed w 10 message.path
      ▸ write_present w (string_type w rt) 18 message.source_file
      ▸ write_present w (int32_type w rt) 24 message.begin
      ▸ write_present w (int32_type w rt) 32 message.end
      ▸ write_present w (member_type w rt GeneratedCodeInfoAnnotationSemantic.fns 0) 40
          message.semantic

  -- The cases of the switch in `decode`.
  abbrev pub cases : List (Case GeneratedCodeInfoAnnotation)
  cases =
      packed_at 1 8 (on_int32 w (push (λ m. m.path) (λ m v. record m { path = v }))) 10
        (on_packed w (push (λ m. m.path) (λ m v. record m { path = v })))
      ∷ case_at 2 18 (on_scalar (string_type w rt) (store (λ m v. record m { source_file = v })))
      ∷ case_at 3 24 (on_scalar (int32_type w rt) (store (λ m v. record m { begin = v })))
      ∷ case_at 4 32 (on_scalar (int32_type w rt) (store (λ m v. record m { end = v })))
      ∷ case_at 5 40 (
          on_scalar (member_type w rt GeneratedCodeInfoAnnotationSemantic.fns 0)
            (store (λ m v. record m { semantic = v })))
      ∷ []

  unfoldable pub decode : Decoder GeneratedCodeInfoAnnotation
  decode = decode_with w cases base

  unfoldable pub from_json : Value → Outcome GeneratedCodeInfoAnnotation
  from_json json = do
    path ← messages_of (int32_type w rt).of_json "path" json
    source_file ← present_of (string_type w rt) "sourceFile" json
    begin ← present_of (int32_type w rt) "begin" json
    end ← present_of (int32_type w rt) "end" json
    semantic ←
        present_of (member_type w rt GeneratedCodeInfoAnnotationSemantic.fns 0) "semantic" json
    ok (record {
      path = path;
      source_file = source_file;
      begin = begin;
      end = end;
      semantic = semantic;
    })

  unfoldable pub to_json : GeneratedCodeInfoAnnotation → Value
  to_json message = build (
      array_entry (int32_type w rt).to_json "path" message.path
      ∷ present_entry (string_type w rt) "sourceFile" message.source_file
      ∷ present_entry (int32_type w rt) "begin" message.begin
      ∷ present_entry (int32_type w rt) "end" message.end
      ∷ present_entry (member_type w rt GeneratedCodeInfoAnnotationSemantic.fns 0) "semantic"
          message.semantic
      ∷ [])

unfoldable pub from_partial : GeneratedCodeInfoAnnotationPartial → GeneratedCodeInfoAnnotation
from_partial object = record {
  path = map_or_empty (λ e. e) object.path;
  source_file = or_present object.source_file "";
  begin = or_present object.begin (pos 0);
  end = or_present object.end (pos 0);
  semantic = or_present object.semantic (pos 0);
}

-- The partial message with no property.
abbrev pub empty : GeneratedCodeInfoAnnotationPartial
empty = record { path = none; source_file = none; begin = none; end = none; semantic = none }

-- create(base?): `base ?? {}`
unfoldable pub create : Option GeneratedCodeInfoAnnotationPartial → GeneratedCodeInfoAnnotation
unfolding or_else
create object = from_partial (or_else object empty)

-- A message is a partial message.
unfoldable pub embed : GeneratedCodeInfoAnnotation → GeneratedCodeInfoAnnotationPartial
embed m = record {
  path = some m.path;
  source_file = m.source_file;
  begin = m.begin;
  end = m.end;
  semantic = m.semantic;
}

abbrev pub fns :
    Wire → Runtime → MessageFns GeneratedCodeInfoAnnotation GeneratedCodeInfoAnnotationPartial
fns w rt = record {
  encode = encode w rt;
  decode = decode w rt;
  from_json = from_json w rt;
  to_json = to_json w rt;
  create = create;
  from_partial = from_partial;
}
