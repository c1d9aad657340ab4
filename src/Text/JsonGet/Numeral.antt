-- ===== src/Text/JsonGet/Numeral.antt =====
-- What the accessors of numbers make of a string.
use cpp_cores.Base.{
  ℕ, ◌%◌, ◌^◌, ◌≡◌, refl, ap, ◌∙◌, Bool, true, false, List, ltb, if◌then◌else◌, arith,
}
use cpp_cores.Base.Int.{ℤ}
use cpp_cores.File.Stat.{number}
use cpp_cores.File.Stat.Extract.{IsNumeral, skip-numeral, sign-numeral, span-digits}
use cpp_cores.Text.JsonGet.{
  Json, Result, convert, signed, unsigned, to_uint32, stoi, stoll, stoul, get_by, get_int32,
  get_uint32, get_int64, get_uint64,
}

convert-numeral :
    (to : Bool → ℕ → Result ℤ) (w : List ℕ) → IsNumeral w → convert to w ≡ to false (number 0 w)
convert-numeral to w h = rw (skip-numeral w h, sign-numeral w h, span-digits w h.1, h.0) refl

-- A number, if it is below the limit.
abbrev pub below : ℕ → ℕ → Result ℤ
below limit n = if ltb n limit then Result.ok (ℤ.pos n) else Result.out_of_range

module _ {J : Type 0} (api : Json J) (json : J) (name w : List ℕ) (default_value : ℤ) where
  -- The member is a string with the text `w`, and of no other type.
  pub record IsText : Type 0 where
    pub member : api.is_member json name ≡ true
    pub a_string : api.is_string (api.at json name) ≡ true
    pub no_int : api.is_int (api.at json name) ≡ false
    pub no_uint : api.is_uint (api.at json name) ≡ false
    pub no_int64 : api.is_int64 (api.at json name) ≡ false
    pub no_uint64 : api.is_uint64 (api.at json name) ≡ false
    pub its_text : api.as_string (api.at json name) ≡ w

  get_by-text :
      (is_type : J → Bool) (as_type : J → ℤ) (from : List ℕ → Result ℤ)
      → IsText
      → is_type (api.at json name) ≡ false
      → get_by api is_type as_type from json name default_value ≡ from w
  get_by-text is_type as_type from t other = rw (t.member, other, t.a_string) (ap from t.its_text)

  uint32_wraps :
      (n : ℕ)
      → to_uint32 (unsigned false n)
        ≡ (if ltb n (2 ^ 64) then Result.ok (ℤ.pos (n % 2 ^ 32)) else Result.out_of_range)
  uint32_wraps n = ground arith

  -- From a string that is a numeral, `GetInt32`, `GetInt64` and `GetUint64` return the number if their type
  -- holds it and raise `out_of_range` if not; `GetUint32` returns the number modulo 2^32 and raises from
  -- 2^64 on.
  pub get-numeral :
      IsText
      → IsNumeral w
      → (get_int32 api json name default_value ≡ below (2 ^ 31) (number 0 w))
        × (get_uint32 api json name default_value ≡ (
            if ltb (number 0 w) (2 ^ 64)
            then Result.ok (ℤ.pos (number 0 w % 2 ^ 32))
            else Result.out_of_range))
        × (get_int64 api json name default_value ≡ below (2 ^ 63) (number 0 w))
        × (get_uint64 api json name default_value ≡ below (2 ^ 64) (number 0 w))
  unfolding get_int32 get_uint32 get_int64 get_uint64 stoi stoll stoul
  get-numeral t h = (
    get_by-text api.is_int api.as_int stoi t t.no_int ∙ convert-numeral (signed (2 ^ 31)) w h,
    get_by-text api.is_uint api.as_uint (λ s. to_uint32 (stoul s)) t t.no_uint
        ∙ ap to_uint32 (convert-numeral unsigned w h)
        ∙ uint32_wraps (number 0 w),
    get_by-text api.is_int64 api.as_int64 stoll t t.no_int64
        ∙ convert-numeral (signed (2 ^ 63)) w h,
    get_by-text api.is_uint64 api.as_uint64 stoul t t.no_uint64 ∙ convert-numeral unsigned w h,
  )
