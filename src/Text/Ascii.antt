-- ===== src/Text/Ascii.antt =====
-- src/utils/ascii.h and src/utils/ascii.cc: `Ascii`. A `char` is its byte; the table is indexed by
-- that byte, and the two conversions of case stay below 128.
pub mod Classes
pub mod Case
use cpp_cores.Base.{
  ℕ, ◌+◌, ◌-◌, Bool, not, List, [], ◌∷◌, ◌++◌, ◌==◌, if◌then◌else◌, get_or, bit_and, bit_or,
  replicate,
}

-- `CharTypeMask`.
abbrev k_upper : ℕ
k_upper = 1

abbrev k_lower : ℕ
k_lower = 2

abbrev k_digit : ℕ
k_digit = 4

abbrev k_hex_digit : ℕ
k_hex_digit = 8

abbrev k_blank : ℕ
k_blank = 16

abbrev k_space : ℕ
k_space = 32

abbrev k_control : ℕ
k_control = 64

abbrev k_punct : ℕ
k_punct = 128

abbrev k_print : ℕ
k_print = 256

abbrev k_graph : ℕ
k_graph = 512

-- `a | b | …`
abbrev union : List ℕ → ℕ
union [] = 0
union (m ∷ ms) = bit_or m (union ms)

abbrev control : ℕ
control = k_control

abbrev line_space : ℕ
line_space = union (k_space ∷ k_control ∷ [])

abbrev punct : ℕ
punct = union (k_punct ∷ k_graph ∷ k_print ∷ [])

abbrev digit : ℕ
digit = union (k_digit ∷ k_hex_digit ∷ k_graph ∷ k_print ∷ [])

abbrev upper_hex : ℕ
upper_hex = union (k_upper ∷ k_hex_digit ∷ k_graph ∷ k_print ∷ [])

abbrev upper : ℕ
upper = union (k_upper ∷ k_graph ∷ k_print ∷ [])

abbrev lower_hex : ℕ
lower_hex = union (k_lower ∷ k_hex_digit ∷ k_graph ∷ k_print ∷ [])

abbrev lower : ℕ
lower = union (k_lower ∷ k_graph ∷ k_print ∷ [])

-- `table`: a run of equal entries is a `replicate`, and the entries that the initialiser leaves out,
-- from 0x80, are 0.
pub table : List ℕ
table =
    replicate 9 control
    ++ union (k_blank ∷ k_space ∷ k_control ∷ []) ∷ replicate 4 line_space
    ++ replicate 18 control
    ++ union (k_blank ∷ k_space ∷ k_print ∷ []) ∷ replicate 15 punct
    ++ replicate 10 digit
    ++ replicate 7 punct
    ++ replicate 6 upper_hex
    ++ replicate 20 upper
    ++ replicate 6 punct
    ++ replicate 6 lower_hex
    ++ replicate 20 lower
    ++ replicate 4 punct
    ++ control ∷ replicate 128 0

pub get_char_type_mask : ℕ → ℕ
get_char_type_mask c = get_or table c 0

pub char_include_any_type_mask : ℕ → ℕ → Bool
char_include_any_type_mask c mask = not (bit_and (get_char_type_mask c) mask == 0)

pub is_valid : ℕ → Bool
is_valid c = bit_and c 0x80 == 0

pub is_lower : ℕ → Bool
is_lower c = char_include_any_type_mask c k_lower

pub is_upper : ℕ → Bool
is_upper c = char_include_any_type_mask c k_upper

pub is_alpha : ℕ → Bool
is_alpha c = char_include_any_type_mask c (bit_or k_upper k_lower)

pub is_digit : ℕ → Bool
is_digit c = char_include_any_type_mask c k_digit

pub is_alpha_number : ℕ → Bool
is_alpha_number c = char_include_any_type_mask c (bit_or (bit_or k_upper k_lower) k_digit)

pub is_blank : ℕ → Bool
is_blank c = char_include_any_type_mask c k_blank

pub is_space : ℕ → Bool
is_space c = char_include_any_type_mask c k_space

pub is_control : ℕ → Bool
is_control c = char_include_any_type_mask c k_control

pub is_punct : ℕ → Bool
is_punct c = char_include_any_type_mask c k_punct

pub is_hex_digit : ℕ → Bool
is_hex_digit c = char_include_any_type_mask c k_hex_digit

pub is_graph : ℕ → Bool
is_graph c = char_include_any_type_mask c k_graph

pub is_print : ℕ → Bool
is_print c = char_include_any_type_mask c k_print

pub to_ascii : ℕ → ℕ
to_ascii c = bit_and c 0x7f

pub to_lower : ℕ → ℕ
to_lower c = if is_upper c then c + (b'a' - b'A') else c

pub to_upper : ℕ → ℕ
to_upper c = if is_lower c then c - (b'a' - b'A') else c
