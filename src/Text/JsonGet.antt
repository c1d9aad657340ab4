-- ===== src/Text/JsonGet.antt =====
-- src/utils/json_util.cc: `GetString`, `GetInt32`, `GetUint32`, `GetInt64` and `GetUint64`. The values of
-- jsoncpp are a parameter; the conversions of the standard library scan a text as the extractions of
-- File/Stat do, and `unsigned long` has 64 bits.
pub mod Numeral
mod Tests
use cpp_cores.Base.{ℕ, ◌-◌, ◌%◌, ◌^◌, Bool, true, false, List, [], ◌∷◌, leb, ltb, if◌then◌else◌}
use cpp_cores.Base.Int.{ℤ, pos, negsuc, neg}
use cpp_cores.File.Stat.{is_digit, skip_space, span, is_empty, number, sign, to_int64}

-- What the accessors call of a value.
pub record Json (J : Type 0) : Type 0 where
  pub is_member : J → List ℕ → Bool
  pub at : J → List ℕ → J
  pub is_string : J → Bool
  pub is_int : J → Bool
  pub is_uint : J → Bool
  pub is_int64 : J → Bool
  pub is_uint64 : J → Bool
  pub as_string : J → List ℕ
  pub as_int : J → ℤ
  pub as_uint : J → ℤ
  pub as_int64 : J → ℤ
  pub as_uint64 : J → ℤ

pub data Result {ℓ} (A : Type ℓ) : Type ℓ where
  ok : A → Result A
  invalid_argument : Result A
  out_of_range : Result A

-- The conversions, given what becomes of a sign and a number.
abbrev pub convert : (Bool → ℕ → Result ℤ) → List ℕ → Result ℤ
convert to s =
    let (negative, s') = sign (skip_space s) in
    let (digits, rest) = span is_digit s' in
    if is_empty digits then invalid_argument else to negative (number 0 digits)

abbrev pub signed : ℕ → Bool → ℕ → Result ℤ
signed limit true n = if leb n limit then ok (neg n) else out_of_range
signed limit false n = if ltb n limit then ok (pos n) else out_of_range

-- A minus negates modulo 2^64.
abbrev pub unsigned : Bool → ℕ → Result ℤ
unsigned true n = if ltb n (2 ^ 64) then ok (pos ((2 ^ 64 - n) % 2 ^ 64)) else out_of_range
unsigned false n = if ltb n (2 ^ 64) then ok (pos n) else out_of_range

-- A result of `stoul` as a `uint32_t`.
abbrev pub to_uint32 : Result ℤ → Result ℤ
to_uint32 (ok (pos n)) = ok (pos (n % 2 ^ 32))
to_uint32 (ok (negsuc n)) = ok (negsuc n)
to_uint32 invalid_argument = invalid_argument
to_uint32 out_of_range = out_of_range

pub stoi : List ℕ → Result ℤ
stoi = convert (signed (2 ^ 31))

pub stoll : List ℕ → Result ℤ
stoll = convert (signed (2 ^ 63))

pub stoul : List ℕ → Result ℤ
stoul = convert unsigned

module _ {J : Type 0} (api : Json J) where
  -- The steps that the accessors of numbers share.
  abbrev pub get_by : (J → Bool) → (J → ℤ) → (List ℕ → Result ℤ) → J → List ℕ → ℤ → Result ℤ
  get_by is_type as_type from json name default_value =
      let v = api.at json name in
      if api.is_member json name
      then (if is_type v
          then ok (as_type v)
          else if api.is_string v
          then from (api.as_string v)
          else ok default_value)
      else ok default_value

  pub get_string : J → List ℕ → List ℕ → List ℕ
  get_string json name default_value =
      let v = api.at json name in
      if api.is_member json name
      then (if api.is_string v then api.as_string v else default_value)
      else default_value

  pub get_int32 : J → List ℕ → ℤ → Result ℤ
  get_int32 = get_by api.is_int api.as_int stoi

  pub get_uint32 : J → List ℕ → ℤ → Result ℤ
  get_uint32 = get_by api.is_uint api.as_uint (λ s. to_uint32 (stoul s))

  pub get_int64 : J → List ℕ → ℤ → Result ℤ
  get_int64 = get_by api.is_int64 api.as_int64 stoll

  pub get_uint64 : J → List ℕ → ℤ → Result ℤ
  get_uint64 = get_by api.is_uint64 api.as_uint64 stoul
