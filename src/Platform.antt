-- ===== src/Platform.antt =====
-- What the source uses of the standard library and of serde_json: decimal numbers, UTF-8, the lines of
-- a file, and a codec for the records of a file of JSON lines.
pub mod Decimal
pub mod Utf8
pub mod Lines
pub mod Codec
pub mod Files
