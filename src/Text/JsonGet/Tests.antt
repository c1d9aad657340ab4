-- ===== src/Text/JsonGet/Tests.antt =====
-- The accessors over values that are strings, and the theorem there.
use cpp_cores.Base.{ℕ, ◌%◌, ◌^◌, ◌≡◌, refl, true, false, List, [], ltb, if◌then◌else◌, codes, arith}
use cpp_cores.Base.Int.{ℤ}
use cpp_cores.File.Stat.{number, is_digit, skip_space, span, is_space}
use cpp_cores.File.Stat.Extract.{IsNumeral}
use cpp_cores.Text.JsonGet.{Json, Result, stoi, stoul, get_int32, get_uint32, get_int64, get_uint64}
use cpp_cores.Text.JsonGet.Numeral.{IsText, below, get-numeral}

-- Each value is a text, and has itself as every member.
abbrev texts : Json (List ℕ)
texts = record {
  is_member = λ j name. true;
  at = λ j name. j;
  is_string = λ j. true;
  is_int = λ j. false;
  is_uint = λ j. false;
  is_int64 = λ j. false;
  is_uint64 = λ j. false;
  as_string = λ j. j;
  as_int = λ j. ℤ.pos 0;
  as_uint = λ j. ℤ.pos 0;
  as_int64 = λ j. ℤ.pos 0;
  as_uint64 = λ j. ℤ.pos 0;
}

abbrev large : List ℕ
large = codes "4294967297"

no_digits : get_int32 texts (codes "abc") [] (ℤ.pos 5) ≡ Result.invalid_argument
unfolding get_int32 stoi is_digit is_space skip_space span
no_digits = refl

-- -1 as a number without sign.
minus_one : get_uint32 texts (codes " -1") [] (ℤ.pos 5) ≡ Result.ok (ℤ.pos 4294967295)
unfolding get_uint32 stoul is_digit is_space skip_space span number
minus_one = refl

large-IsText : IsText texts large [] large (ℤ.pos 5)
large-IsText = record {
  member = refl;
  a_string = refl;
  no_int = refl;
  no_uint = refl;
  no_int64 = refl;
  no_uint64 = refl;
  its_text = refl;
}

large-IsNumeral : IsNumeral large
unfolding is_digit
large-IsNumeral = ground arith

get-numeral_example :
    (get_int32 texts large [] (ℤ.pos 5) ≡ below (2 ^ 31) (number 0 large))
    × (get_uint32 texts large [] (ℤ.pos 5) ≡ (
        if ltb (number 0 large) (2 ^ 64)
        then Result.ok (ℤ.pos (number 0 large % 2 ^ 32))
        else Result.out_of_range))
    × (get_int64 texts large [] (ℤ.pos 5) ≡ below (2 ^ 63) (number 0 large))
    × (get_uint64 texts large [] (ℤ.pos 5) ≡ below (2 ^ 64) (number 0 large))
get-numeral_example = get-numeral texts large [] large (ℤ.pos 5) large-IsText large-IsNumeral
