-- ===== src/Text/Replace/Tests.antt =====
-- Runs of `replace`, `toLower` and `toUpper`, and the theorems at concrete strings.
use cpp_cores.Base.{◌≡◌, refl, [], some, none, codes, arith}
use cpp_cores.Text.Affix.{matches}
use cpp_cores.Text.Replace.{find, replace, replace_loop, replace_char_by, to_upper, toupper}
use cpp_cores.Text.Replace.Texts.{replaced, replace_lem, replace_empty}

-- What is put in is not searched again.
doubled : replace 5 (codes "a.b.a") (codes "a") (codes "aa") ≡ some (codes "aa.b.aa")
unfolding replace replace_loop find matches
doubled = refl

overlapping : replace 5 (codes "ababa") (codes "aba") (codes "x") ≡ some (codes "xba")
unfolding replace replace_loop find matches
overlapping = refl

a_character : replace_char_by 5 (codes "a,b,c") b',' (codes "; ") ≡ some (codes "a; b; c")
unfolding replace_char_by replace replace_loop find matches
a_character = refl

letters : to_upper (codes "Mixed 1a") ≡ codes "MIXED 1A"
unfolding to_upper toupper
letters = refl

replace_lem_example :
    replace 5 (codes "ababa") (codes "aba") (codes "x")
    ≡ some (replaced (codes "aba") (codes "x") 0 (codes "ababa"))
replace_lem_example = replace_lem 5 (codes "ababa") b'a' (codes "ba") (codes "x") (omega arith)

replace_empty_example : replace 9 (codes "ab") [] (codes "x") ≡ none
replace_empty_example = replace_empty 9 (codes "ab") (codes "x")
