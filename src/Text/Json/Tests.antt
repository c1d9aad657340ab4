-- ===== src/Text/Json/Tests.antt =====
-- A run of `Escape`, and its theorem at a concrete string.
use cpp_cores.Base.{◌≡◌, refl, [], ◌∷◌}
use cpp_cores.Text.Json.{escape, escaped_size, append_escaped, escape_char, special}

-- A quotation mark in front of one letter.
escaped : escape (b'"' ∷ b'x' ∷ []) ≡ 0 ∷ 0 ∷ 0 ∷ b'\\' ∷ b'"' ∷ b'x' ∷ []
unfolding escape escaped_size append_escaped escape_char special
escaped = refl
