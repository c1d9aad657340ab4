-- ===== src/Text/Ascii/Case.antt =====
-- The conversions between the cases.
use cpp_cores.Base.{ℕ, ◌≡◌, refl, Bool, true, false, not, ◌&&◌, ◌==◌, arith, IsByte}
use cpp_cores.Base.Bits.{all_below, all_below_sound}
use cpp_cores.Text.Ascii.{
  table, get_char_type_mask, char_include_any_type_mask, is_lower, is_upper, to_lower, to_upper,
}

abbrev converts : ℕ → Bool
converts c =
    not (is_upper (to_lower c))
    && not (is_lower (to_upper c))
    && to_upper (to_lower c) == to_upper c
    && to_lower (to_upper c) == to_lower c

converts_table : all_below 256 converts ≡ true
unfolding is_upper is_lower to_lower to_upper char_include_any_type_mask get_char_type_mask table
    all_below
converts_table = refl

-- On every byte, `ToLower` leaves no upper case letter and `ToUpper` no lower case letter, and either
-- conversion forgets what the other one has done.
pub case_conversion :
    (c : ℕ)
    → IsByte c
    → (is_upper (to_lower c) ≡ false)
      × (is_lower (to_upper c) ≡ false)
      × (to_upper (to_lower c) ≡ to_upper c)
      × (to_lower (to_upper c) ≡ to_lower c)
case_conversion c byte = ground (arith, all_below_sound 256 converts c converts_table byte)
