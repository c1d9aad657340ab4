-- ===== src/File/Stream.antt =====
-- src/utils/simple_ostream.h: `EncodeToStream` and `DecodeFromStream`. A stream is the list of its bytes;
-- what its buffer takes of a write is a parameter, and reading succeeds when there are enough bytes. A value of a trivially copyable type
-- is the list of its bytes in memory, and a `size_t` has eight, lowest first.
pub mod RoundTrip
mod Tests
use cpp_cores.Base.{
  ℕ, zero, suc, Bool, true, false, List, [], ◌∷◌, ◌++◌, Option, none, some, leb, length, take, drop,
  map, replicate, ◌-◌, if◌then◌else◌,
}
use cpp_cores.Encoding.Fixed.{encode_fixed64, decode_fixed64}

-- What the variadic templates are called with.
pub data Field : Type 0 where
  trivial : (bytes : List ℕ) → Field
  text : (bytes : List ℕ) → Field

-- What has been written to an output, and whether it is good.
pub record Output : Type 0 where
  pub written : List ℕ
  pub good : Bool

-- `&&`: what follows is encoded if the stream is still good.
abbrev pub and_encode :
    Option (Output × Bool) → (Output → Option (Output × Bool)) → Option (Output × Bool)
and_encode none further = none
and_encode (some (os, true)) further = further os
and_encode (some (os, false)) further = some (os, false)

-- `accepts written bytes` is how many of the bytes the buffer of the stream takes after what was written.
module _ (accepts : List ℕ → List ℕ → ℕ) where
  -- `os.write(p, n)`: nothing on a stream that is not good, and else the bytes that the buffer takes.
  abbrev pub write : Output → List ℕ → Output
  write os bytes =
      let n = accepts os.written bytes in
      if os.good
      then record { written = os.written ++ take n bytes; good = leb (length bytes) n }
      else os

  -- `EncodeToStream` of a trivially copyable value; it returns `os.good()`.
  pub encode_trivial : Output → List ℕ → Output × Bool
  encode_trivial os value = let os' = write os value in (os', os'.good)

  -- `EncodeToStream<std::string>`: the size, whose result is not looked at, and the characters.
  pub encode_string : Output → List ℕ → Output × Bool
  encode_string os value =
      let os' = write (encode_trivial os (encode_fixed64 (length value))).0 value in (os', os'.good)

  -- The variadic `EncodeToStream`. The overload for strings cannot be deduced, so a string comes back to the
  -- variadic template itself; `none` says that so many calls do not suffice.
  pub encode_all : ℕ → Output → Field → List Field → Option (Output × Bool)
  encode_all zero os t args = none
  encode_all (suc calls) os t (arg ∷ args) =
      and_encode (encode_all calls os t []) (λ os'. encode_all calls os' arg args)
  encode_all (suc calls) os (Field.trivial value) [] = some (encode_trivial os value)
  encode_all (suc calls) os (Field.text value) [] = encode_all calls os (Field.text value) []

-- What an input has left, and whether it is good.
pub record Input : Type 0 where
  pub left : List ℕ
  pub good : Bool

-- Bytes written over the first ones of a value.
abbrev pub over : List ℕ → List ℕ → List ℕ
over bytes value = bytes ++ drop (length bytes) value

-- `is.read(p, n)`, onto a value of `n` bytes. A stream that is not good gives nothing.
pub read : Input → List ℕ → List ℕ × Input
read is value =
    let n = length value in
    let enough = leb n (length is.left) in
    if is.good
    then (over (take n is.left) value, record { left = drop n is.left; good = enough })
    else (value, is)

-- `DecodeFromStream` of a trivially copyable value.
pub decode_trivial : Input → List ℕ → List ℕ × Input
decode_trivial is value = read is value

-- `value->resize(n)`
abbrev pub resize : List ℕ → ℕ → List ℕ
resize value n = take n value ++ replicate (n - length value) 0

-- `DecodeFromStream<std::string>`. The result of the first read is not looked at; `junk` is what the eight
-- bytes of `size` hold before it.
pub decode_string : Input → List ℕ → List ℕ → List ℕ × Input
decode_string is junk value =
    let (size, is') = decode_trivial is junk in read is' (resize value (decode_fixed64 size))

abbrev pub bytes_of : Field → List ℕ
bytes_of (Field.trivial value) = value
bytes_of (Field.text value) = value

abbrev pub prepend : List (List ℕ) → Option (List (List ℕ) × Input) → Option (List (List ℕ) × Input)
prepend values none = none
prepend values (some (more, is)) = some (values ++ more, is)

-- `&&`: what follows is decoded if the stream is still good.
abbrev pub and_then :
    Option (List (List ℕ) × Input)
    → List (List ℕ)
    → (Input → Option (List (List ℕ) × Input))
    → Option (List (List ℕ) × Input)
and_then none untouched further = none
and_then (some (values, is)) untouched further =
    if is.good then prepend values (further is) else some (values ++ untouched, is)

-- The variadic `DecodeFromStream`, onto the values that its pointers point to; the overload for strings
-- cannot be deduced here either.
pub decode_all : ℕ → Input → Field → List Field → Option (List (List ℕ) × Input)
decode_all zero is t args = none
decode_all (suc calls) is t (arg ∷ args) =
    and_then (decode_all calls is t []) (map bytes_of (arg ∷ args))
      (λ is'. decode_all calls is' arg args)
decode_all (suc calls) is (Field.trivial value) [] =
    let (value', is') = decode_trivial is value in some (value' ∷ [], is')
decode_all (suc calls) is (Field.text value) [] = decode_all calls is (Field.text value) []
