-- ===== src/Message/Statements.antt =====
-- What the generated messages of gen/ts are written with, for the modules of one message each.
pub use merkle_proof_service.Prelude.{
  ℕ, ℤ, pos, String, Bool, true, false, Option, none, some, List, [], ◌∷◌, map,
}
pub use merkle_proof_service.Wire.Binary.{Bytes, Outcome, ok, ◌>>=◌, Wire, Writer}
pub use merkle_proof_service.Wire.Loop.{
  ◌▸◌, write_string, write_bool, write_strings, write_message, write_messages, Case, case_at,
  packed_at, Decoder, decode_with, on_string, on_bool, on_message,
}
pub use merkle_proof_service.Json.Value.{string, Value, Runtime}
unfoldable pub use merkle_proof_service.Json.Convert.{
  string_of, flag_of, strings_of, message_of, messages_of, string_entry, flag_entry, message_entry,
  array_entry, build, or_else, map_option, map_or_empty,
}
pub use merkle_proof_service.Message.Fns.{MessageFns}
pub use merkle_proof_service.Message.Scalar.{
  string_type, bool_type, int32_type, uint64_type, int64_type, double_type, bytes_type, member_type,
  write_present, on_scalar, present_of, present_entry, or_present,
}
pub use merkle_proof_service.Message.Row.{store, push}
pub use merkle_proof_service.Wire.Packed.{write_packed, on_int32, on_packed}
