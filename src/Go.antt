-- ===== src/Go.antt =====
-- What the code uses of Go's standard library: strconv, strings, unicode/utf8, encoding/hex and
-- encoding/base64, over byte lists.
pub mod Int
pub mod Strconv
pub mod Strings
pub mod Utf8
pub mod Hex
pub mod Base64
