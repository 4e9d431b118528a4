-- ===== src/Json.antt =====
-- JavaScript values, as `fromJSON` and `toJSON` of gen/ts read and build them.
pub mod Value
pub mod Convert
pub mod Entries
pub mod Nested
pub mod Enum
pub mod Settles
