-- ===== src/Message/Fields.antt =====
-- What the laws of the generated messages of gen/ts are written with, field by field.
pub use merkle_proof_service.Prelude.{refl, arith, ◌^◌, ◌<◌, IsWithin, All, AllOption}
pub use merkle_proof_service.Wire.Binary.{IsLawful}
unfoldable pub use merkle_proof_service.Wire.Loop.{switch}
pub use merkle_proof_service.Json.Value.{IsRuntime, any_runtime}
pub use merkle_proof_service.Message.Scalar.Laws.{
  IsSafe, string_type-IsScalar, bool_type-IsScalar, int32_type-IsScalar, uint64_type-IsScalar,
  int64_type-IsScalar, double_type-IsScalar, bytes_type-IsScalar, member_type-IsScalar,
}
pub use merkle_proof_service.Message.Row.{Row, Message}
pub use merkle_proof_service.Message.Kinds.{
  uint32_row, free, scalar_row, string_row, bool_row, strings_row,
}
pub use merkle_proof_service.Message.Nested.{Fitting, message_row, messages_row}
pub use merkle_proof_service.Message.Rows.{OfRows, rows-Message}
pub use merkle_proof_service.Message.Scalar.{IsMember}
pub use merkle_proof_service.Message.Packed.{FitsPacked, packed_row}
pub use merkle_proof_service.Message.Fns.{IsReadAs}
pub use merkle_proof_service.Message.Laws.{Message-IsReadAs}
pub use merkle_proof_service.Wire.Fields.{Coded}
