-- ===== src/Descriptor/ExtensionRangeOptionsDeclaration.antt =====
-- ExtensionRangeOptions_Declaration of gen/ts/google/protobuf/descriptor.ts.
pub mod Laws
use merkle_proof_service.Message.Statements.{
  ℤ, pos, String, Bool, false, Option, none, some, List, [], ◌∷◌, Outcome, ok, ◌>>=◌, Wire, Writer,
  ◌▸◌, Case, case_at, Decoder, decode_with, Value, Runtime, build, or_else, MessageFns, string_type,
  bool_type, int32_type, write_present, on_scalar, present_of, present_entry, or_present, store,
}

pub record ExtensionRangeOptionsDeclaration : Type 0 where
  pub number : Option ℤ
  pub full_name : Option String
  pub type : Option String
  pub reserved : Option Bool
  pub repeated : Option Bool

-- DeepPartial<ExtensionRangeOptions_Declaration>: `none` for a property that is missing or null.
pub record ExtensionRangeOptionsDeclarationPartial : Type 0 where
  pub number : Option ℤ
  pub full_name : Option String
  pub type : Option String
  pub reserved : Option Bool
  pub repeated : Option Bool

-- createBaseExtensionRangeOptions_Declaration
abbrev pub base : ExtensionRangeOptionsDeclaration
base = record {
  number = some (pos 0);
  full_name = some "";
  type = some "";
  reserved = some false;
  repeated = some false;
}

module _ (w : Wire) (rt : Runtime) where
  unfoldable pub encode : ExtensionRangeOptionsDeclaration → Writer → Writer
  encode message =
      write_present w (int32_type w rt) 8 message.number
      ▸ write_present w (string_type w rt) 18 message.full_name
      ▸ write_present w (string_type w rt) 26 message.type
      ▸ write_present w (bool_type w rt false) 40 message.reserved
      ▸ write_present w (bool_type w rt false) 48 message.repeated

  -- The cases of the switch in `decode`.
  abbrev pub cases : List (Case ExtensionRangeOptionsDeclaration)
  cases =
      case_at 1 8 (on_scalar (int32_type w rt) (store (λ m v. record m { number = v })))
      ∷ case_at 2 18 (on_scalar (string_type w rt) (store (λ m v. record m { full_name = v })))
      ∷ case_at 3 26 (on_scalar (string_type w rt) (store (λ m v. record m { type = v })))
      ∷ case_at 5 40 (on_scalar (bool_type w rt false) (store (λ m v. record m { reserved = v })))
      ∷ case_at 6 48 (on_scalar (bool_type w rt false) (store (λ m v. record m { repeated = v })))
      ∷ []

  unfoldable pub decode : Decoder ExtensionRangeOptionsDeclaration
  decode = decode_with w cases base

  unfoldable pub from_json : Value → Outcome ExtensionRangeOptionsDeclaration
  from_json json = do
    number ← present_of (int32_type w rt) "number" json
    full_name ← present_of (string_type w rt) "fullName" json
    type ← present_of (string_type w rt) "type" json
    reserved ← present_of (bool_type w rt false) "reserved" json
    repeated ← present_of (bool_type w rt false) "repeated" json
    ok (record {
      number = number;
      full_name = full_name;
      type = type;
      reserved = reserved;
      repeated = repeated;
    })

  unfoldable pub to_json : ExtensionRangeOptionsDeclaration → Value
  to_json message = build (
      present_entry (int32_type w rt) "number" message.number
      ∷ present_entry (string_type w rt) "fullName" message.full_name
      ∷ present_entry (string_type w rt) "type" message.type
      ∷ present_entry (bool_type w rt false) "reserved" message.reserved
      ∷ present_entry (bool_type w rt false) "repeated" message.repeated
      ∷ [])

unfoldable pub from_partial :
    ExtensionRangeOptionsDeclarationPartial → ExtensionRangeOptionsDeclaration
from_partial object = record {
  number = or_present object.number (pos 0);
  full_name = or_present object.full_name "";
  type = or_present object.type "";
  reserved = or_present object.reserved false;
  repeated = or_present object.repeated false;
}

-- The partial message with no property.
abbrev pub empty : ExtensionRangeOptionsDeclarationPartial
empty = record { number = none; full_name = none; type = none; reserved = none; repeated = none }

-- create(base?): `base ?? {}`
unfoldable pub create :
    Option ExtensionRangeOptionsDeclarationPartial → ExtensionRangeOptionsDeclaration
unfolding or_else
create object = from_partial (or_else object empty)

-- A message is a partial message.
unfoldable pub embed : ExtensionRangeOptionsDeclaration → ExtensionRangeOptionsDeclarationPartial
embed m = record {
  number = m.number;
  full_name = m.full_name;
  type = m.type;
  reserved = m.reserved;
  repeated = m.repeated;
}

abbrev pub fns :
    Wire
    → Runtime
    → MessageFns ExtensionRangeOptionsDeclaration ExtensionRangeOptionsDeclarationPartial
fns w rt = record {
  encode = encode w rt;
  decode = decode w rt;
  from_json = from_json w rt;
  to_json = to_json w rt;
  create = create;
  from_partial = from_partial;
}
