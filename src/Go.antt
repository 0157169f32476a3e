-- ===== src/Go.antt =====
-- What the program uses of Go's standard library: strings, strconv, net/http headers and writers.
pub mod Strings
pub mod Strconv
pub mod Header
pub mod Http
