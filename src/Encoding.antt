-- ===== src/Encoding.antt =====
-- The codecs of src/utils: hexadecimal and base64 of hash.cc, base64 and fixed-width integers of
-- encoding.h and encoding.cc. Data is a list of bytes, a text a list of character codes.
pub mod Hex
pub mod Base64
pub mod Base64Arrays
pub mod Fixed
