-- ===== src/Descriptor/SourceCodeInfoLocation.antt =====
-- SourceCodeInfo_Location of gen/ts/google/protobuf/descriptor.ts.
pub mod Laws
use merkle_proof_service.Message.Statements.{
  ℤ, String, Option, none, some, List, [], ◌∷◌, Outcome, ok, ◌>>=◌, Wire, Writer, ◌▸◌,
  write_strings, Case, case_at, packed_at, Decoder, decode_with, on_string, string, Value, Runtime,
  strings_of, messages_of, array_entry, build, or_else, map_or_empty, MessageFns, string_type,
  int32_type, write_present, on_scalar, present_of, present_entry, or_present, store, push,
  write_packed, on_int32, on_packed,
}

pub record SourceCodeInfoLocation : Type 0 where
  pub path : List ℤ
  pub span : List ℤ
  pub leading_comments : Option String
  pub trailing_comments : Option String
  pub leading_detached_comments : List String

-- DeepPartial<SourceCodeInfo_Location>: `none` for a property that is missing or null.
pub record SourceCodeInfoLocationPartial : Type 0 where
  pub path : Option (List ℤ)
  pub span : Option (List ℤ)
  pub leading_comments : Option String
  pub trailing_comments : Option String
  pub leading_detached_comments : Option (List String)

-- createBaseSourceCodeInfo_Location
abbrev pub base : SourceCodeInfoLocation
base = record {
  path = [];
  span = [];
  leading_comments = some "";
  trailing_comments = some "";
  leading_detached_comments = [];
}

module _ (w : Wire) (rt : Runtime) where
  unfoldable pub encode : SourceCodeInfoLocation → Writer → Writer
  encode message =
      write_packed w 10 message.path
      ▸ write_packed w 18 message.span
      ▸ write_present w (string_type w rt) 26 message.leading_comments
      ▸ write_present w (string_type w rt) 34 message.trailing_comments
      ▸ write_strings w 50 message.leading_detached_comments

  -- The cases of the switch in `decode`.
  abbrev pub cases : List (Case SourceCodeInfoLocation)
  cases =
      packed_at 1 8 (on_int32 w (push (λ m. m.path) (λ m v. record m { path = v }))) 10
        (on_packed w (push (λ m. m.path) (λ m v. record m { path = v })))
      ∷ packed_at 2 16 (on_int32 w (push (λ m. m.span) (λ m v. record m { span = v }))) 18
          (on_packed w (push (λ m. m.span) (λ m v. record m { span = v })))
      ∷ case_at 3 26
          (on_scalar (string_type w rt) (store (λ m v. record m { leading_comments = v })))
      ∷ case_at 4 34
          (on_scalar (string_type w rt) (store (λ m v. record m { trailing_comments = v })))
      ∷ case_at 6 50 (
          on_string w (
            push (λ m. m.leading_detached_comments)
              (λ m v. record m { leading_detached_comments = v })))
      ∷ []

  unfoldable pub decode : Decoder SourceCodeInfoLocation
  decode = decode_with w cases base

  unfoldable pub from_json : Value → Outcome SourceCodeInfoLocation
  from_json json = do
    path ← messages_of (int32_type w rt).of_json "path" json
    span ← messages_of (int32_type w rt).of_json "span" json
    leading_comments ← present_of (string_type w rt) "leadingComments" json
    trailing_comments ← present_of (string_type w rt) "trailingComments" json
    let leading_detached_comments = strings_of rt "leadingDetachedComments" json
    ok (record {
      path = path;
      span = span;
      leading_comments = leading_comments;
      trailing_comments = trailing_comments;
      leading_detached_comments = leading_detached_comments;
    })

  unfoldable pub to_json : SourceCodeInfoLocation → Value
  to_json message = build (
      array_entry (int32_type w rt).to_json "path" message.path
      ∷ array_entry (int32_type w rt).to_json "span" message.span
      ∷ present_entry (string_type w rt) "leadingComments" message.leading_comments
      ∷ present_entry (string_type w rt) "trailingComments" message.trailing_comments
      ∷ array_entry string "leadingDetachedComments" message.leading_detached_comments
      ∷ [])

unfoldable pub from_partial : SourceCodeInfoLocationPartial → SourceCodeInfoLocation
from_partial object = record {
  path = map_or_empty (λ e. e) object.path;
  span = map_or_empty (λ e. e) object.span;
  leading_comments = or_present object.leading_comments "";
  trailing_comments = or_present object.trailing_comments "";
  leading_detached_comments = map_or_empty (λ e. e) object.leading_detached_comments;
}

-- The partial message with no property.
abbrev pub empty : SourceCodeInfoLocationPartial
empty = record {
  path = none;
  span = none;
  leading_comments = none;
  trailing_comments = none;
  leading_detached_comments = none;
}

-- create(base?): `base ?? {}`
unfoldable pub create : Option SourceCodeInfoLocationPartial → SourceCodeInfoLocation
unfolding or_else
create object = from_partial (or_else object empty)

-- A message is a partial message.
unfoldable pub embed : SourceCodeInfoLocation → SourceCodeInfoLocationPartial
embed m = record {
  path = some m.path;
  span = some m.span;
  leading_comments = m.leading_comments;
  trailing_comments = m.trailing_comments;
  leading_detached_comments = some m.leading_detached_comments;
}

abbrev pub fns : Wire → Runtime → MessageFns SourceCodeInfoLocation SourceCodeInfoLocationPartial
fns w rt = record {
  encode = encode w rt;
  decode = decode w rt;
  from_json = from_json w rt;
  to_json = to_json w rt;
  create = create;
  from_partial = from_partial;
}
