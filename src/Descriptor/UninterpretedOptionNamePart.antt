-- ===== src/Descriptor/UninterpretedOptionNamePart.antt =====
-- UninterpretedOption_NamePart of gen/ts/google/protobuf/descriptor.ts.
pub mod Laws
use merkle_proof_service.Message.Statements.{
  String, Bool, false, Option, none, some, List, [], ◌∷◌, Outcome, ok, ◌>>=◌, Wire, Writer, ◌▸◌,
  write_string, write_bool, Case, case_at, Decoder, decode_with, on_string, on_bool, Value, Runtime,
  string_of, flag_of, string_entry, flag_entry, build, or_else, MessageFns,
}

pub record UninterpretedOptionNamePart : Type 0 where
  pub name_part : String
  pub is_extension : Bool

-- DeepPartial<UninterpretedOption_NamePart>: `none` for a property that is missing or null.
pub record UninterpretedOptionNamePartPartial : Type 0 where
  pub name_part : Option String
  pub is_extension : Option Bool

-- createBaseUninterpretedOption_NamePart
abbrev pub base : UninterpretedOptionNamePart
base = record { name_part = ""; is_extension = false }

module _ (w : Wire) (rt : Runtime) where
  unfoldable pub encode : UninterpretedOptionNamePart → Writer → Writer
  encode message = write_string w 10 message.name_part ▸ write_bool w 16 message.is_extension

  -- The cases of the switch in `decode`.
  abbrev pub cases : List (Case UninterpretedOptionNamePart)
  cases =
      case_at 1 10 (on_string w (λ m v. record m { name_part = v }))
      ∷ case_at 2 16 (on_bool w (λ m v. record m { is_extension = v }))
      ∷ []

  unfoldable pub decode : Decoder UninterpretedOptionNamePart
  decode = decode_with w cases base

  unfoldable pub from_json : Value → Outcome UninterpretedOptionNamePart
  from_json json = do
    name_part ← string_of rt "namePart" json
    is_extension ← flag_of "isExtension" json
    ok (record { name_part = name_part; is_extension = is_extension })

  unfoldable pub to_json : UninterpretedOptionNamePart → Value
  to_json message = build (
      string_entry "namePart" message.name_part
      ∷ flag_entry "isExtension" message.is_extension
      ∷ [])

unfoldable pub from_partial : UninterpretedOptionNamePartPartial → UninterpretedOptionNamePart
from_partial object = record {
  name_part = or_else object.name_part "";
  is_extension = or_else object.is_extension false;
}

-- The partial message with no property.
abbrev pub empty : UninterpretedOptionNamePartPartial
empty = record { name_part = none; is_extension = none }

-- create(base?): `base ?? {}`
unfoldable pub create : Option UninterpretedOptionNamePartPartial → UninterpretedOptionNamePart
unfolding or_else
create object = from_partial (or_else object empty)

-- A message is a partial message.
unfoldable pub embed : UninterpretedOptionNamePart → UninterpretedOptionNamePartPartial
embed m = record { name_part = some m.name_part; is_extension = some m.is_extension }

abbrev pub fns :
    Wire → Runtime → MessageFns UninterpretedOptionNamePart UninterpretedOptionNamePartPartial
fns w rt = record {
  encode = encode w rt;
  decode = decode w rt;
  from_json = from_json w rt;
  to_json = to_json w rt;
  create = create;
  from_partial = from_partial;
}
