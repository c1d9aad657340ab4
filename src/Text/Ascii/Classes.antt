-- ===== src/Text/Ascii/Classes.antt =====
-- The tests that read the table are ranges of the "C" locale.
use cpp_cores.Base.{ℕ, ◌≡◌, refl, Bool, true, false, not, ◌&&◌, ◌||◌, leb, ltb, ◌==◌, arith, IsByte}
use cpp_cores.Base.Bits.{all_below, all_below_sound}
use cpp_cores.Text.Ascii.{
  table, get_char_type_mask, char_include_any_type_mask, is_valid, is_lower, is_upper, is_alpha,
  is_digit, is_alpha_number, is_blank, is_space, is_control, is_punct, is_hex_digit, is_graph,
  is_print,
}

abbrev pub between : ℕ → ℕ → ℕ → Bool
between low high c = leb low c && leb c high

abbrev pub letter_or_digit : ℕ → Bool
letter_or_digit c = between b'a' b'z' c || between b'A' b'Z' c || between b'0' b'9' c

-- Two tests that agree on every byte.
abbrev same : Bool → Bool → Bool
same true b = b
same false b = not b

same-eq : (a b : Bool) → same a b ≡ true → a ≡ b
same-eq true true h = refl
same-eq true false h = ground arith
same-eq false true h = ground arith
same-eq false false h = refl

agree :
    (f g : ℕ → Bool) (c : ℕ) → all_below 256 (λ b. same (f b) (g b)) ≡ true → IsByte c → f c ≡ g c
agree f g c checked byte =
    same-eq (f c) (g c) (all_below_sound 256 (λ b. same (f b) (g b)) c checked byte)

is_valid_lem : (c : ℕ) → IsByte c → is_valid c ≡ (ltb c 128)
unfolding is_valid all_below
is_valid_lem c = agree is_valid (λ b. ltb b 128) c refl

is_lower_lem : (c : ℕ) → IsByte c → is_lower c ≡ between b'a' b'z' c
unfolding is_lower char_include_any_type_mask get_char_type_mask table all_below
is_lower_lem c = agree is_lower (between b'a' b'z') c refl

is_upper_lem : (c : ℕ) → IsByte c → is_upper c ≡ between b'A' b'Z' c
unfolding is_upper char_include_any_type_mask get_char_type_mask table all_below
is_upper_lem c = agree is_upper (between b'A' b'Z') c refl

is_alpha_lem : (c : ℕ) → IsByte c → is_alpha c ≡ (between b'a' b'z' c || between b'A' b'Z' c)
unfolding is_alpha char_include_any_type_mask get_char_type_mask table all_below
is_alpha_lem c = agree is_alpha (λ b. between b'a' b'z' b || between b'A' b'Z' b) c refl

is_digit_lem : (c : ℕ) → IsByte c → is_digit c ≡ between b'0' b'9' c
unfolding is_digit char_include_any_type_mask get_char_type_mask table all_below
is_digit_lem c = agree is_digit (between b'0' b'9') c refl

is_alpha_number_lem : (c : ℕ) → IsByte c → is_alpha_number c ≡ letter_or_digit c
unfolding is_alpha_number char_include_any_type_mask get_char_type_mask table all_below
is_alpha_number_lem c = agree is_alpha_number (letter_or_digit) c refl

is_hex_digit_lem :
    (c : ℕ)
    → IsByte c
    → is_hex_digit c ≡ (between b'0' b'9' c || between b'A' b'F' c || between b'a' b'f' c)
unfolding is_hex_digit char_include_any_type_mask get_char_type_mask table all_below
is_hex_digit_lem c =
    agree is_hex_digit (λ b. between b'0' b'9' b || between b'A' b'F' b || between b'a' b'f' b) c
      refl

is_blank_lem : (c : ℕ) → IsByte c → is_blank c ≡ (c == 9 || c == 32)
unfolding is_blank char_include_any_type_mask get_char_type_mask table all_below
is_blank_lem c = agree is_blank (λ b. b == 9 || b == 32) c refl

is_space_lem : (c : ℕ) → IsByte c → is_space c ≡ (between 9 13 c || c == 32)
unfolding is_space char_include_any_type_mask get_char_type_mask table all_below
is_space_lem c = agree is_space (λ b. between 9 13 b || b == 32) c refl

is_control_lem : (c : ℕ) → IsByte c → is_control c ≡ (ltb c 32 || c == 127)
unfolding is_control char_include_any_type_mask get_char_type_mask table all_below
is_control_lem c = agree is_control (λ b. ltb b 32 || b == 127) c refl

is_print_lem : (c : ℕ) → IsByte c → is_print c ≡ between 32 126 c
unfolding is_print char_include_any_type_mask get_char_type_mask table all_below
is_print_lem c = agree is_print (between 32 126) c refl

is_graph_lem : (c : ℕ) → IsByte c → is_graph c ≡ between 33 126 c
unfolding is_graph char_include_any_type_mask get_char_type_mask table all_below
is_graph_lem c = agree is_graph (between 33 126) c refl

is_punct_lem : (c : ℕ) → IsByte c → is_punct c ≡ (between 33 126 c && not (letter_or_digit c))
unfolding is_punct char_include_any_type_mask get_char_type_mask table all_below
is_punct_lem c = agree is_punct (λ b. between 33 126 b && not (letter_or_digit b)) c refl

-- Each test on a byte is the test of the same name of the C library, in the "C" locale.
pub classes :
    (c : ℕ)
    → IsByte c
    → (is_valid c ≡ ltb c 128)
      × (is_lower c ≡ between b'a' b'z' c)
      × (is_upper c ≡ between b'A' b'Z' c)
      × (is_alpha c ≡ (between b'a' b'z' c || between b'A' b'Z' c))
      × (is_digit c ≡ between b'0' b'9' c)
      × (is_alpha_number c ≡ letter_or_digit c)
      × (is_hex_digit c ≡ (between b'0' b'9' c || between b'A' b'F' c || between b'a' b'f' c))
      × (is_blank c ≡ (c == 9 || c == 32))
      × (is_space c ≡ (between 9 13 c || c == 32))
      × (is_control c ≡ (ltb c 32 || c == 127))
      × (is_print c ≡ between 32 126 c)
      × (is_graph c ≡ between 33 126 c)
      × (is_punct c ≡ (between 33 126 c && not (letter_or_digit c)))
classes c byte = (
  is_valid_lem c byte,
  is_lower_lem c byte,
  is_upper_lem c byte,
  is_alpha_lem c byte,
  is_digit_lem c byte,
  is_alpha_number_lem c byte,
  is_hex_digit_lem c byte,
  is_blank_lem c byte,
  is_space_lem c byte,
  is_control_lem c byte,
  is_print_lem c byte,
  is_graph_lem c byte,
  is_punct_lem c byte,
)
