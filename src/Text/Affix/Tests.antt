-- ===== src/Text/Affix/Tests.antt =====
-- Runs of the prefix and suffix functions, and the theorems at concrete strings.
use cpp_cores.Base.{◌≡◌, refl, true, some, codes}
use cpp_cores.Text.Affix.{
  start_with_prefix, remove_prefix, find_first_of, member, end_with_suffix, rfind, matches,
}

-- One character in common is taken for the prefix.
not_a_prefix : start_with_prefix (codes "bcd") (codes "ab") ≡ true
unfolding start_with_prefix find_first_of member
not_a_prefix = refl

not_a_prefix_removed : remove_prefix (codes "bcd") (codes "ab") ≡ some (codes "d")
unfolding remove_prefix find_first_of member
not_a_prefix_removed = refl

ends : end_with_suffix (codes "file.cc") (codes ".cc") ≡ true
unfolding end_with_suffix rfind matches
ends = refl
