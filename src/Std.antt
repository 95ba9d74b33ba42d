-- ===== src/Std.antt =====
-- What the program uses of Go's language and standard library.
pub mod Atoi
pub mod Itoa
pub mod Runes
pub mod Net
pub mod ServeMux
pub mod Spaces
pub mod Hex
