-- ===== src/Utils.antt =====
-- utils: the error values of the server and the helpers on strings.
pub mod Errors
pub mod Strings
pub mod Http
