-- ===== src/Util.antt =====
-- src/util/util.c, but for the rotation (`Api`): dates, and numbers in text (`Hex` util_hex2bin);
-- `Foreach` and `Stream` are src/util/functional.
pub mod Calendar
pub mod Iso8601
pub mod Foreach
pub mod Hex
pub mod Stream
