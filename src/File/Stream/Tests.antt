-- ===== src/File/Stream/Tests.antt =====
-- Runs of the stream functions, and their theorems at concrete values.
use cpp_cores.Base.{
  ℕ, length, false, ◌≡◌, refl, List, [], ◌∷◌, ◌++◌, true, some, none, codes, arith,
}
use cpp_cores.Encoding.Fixed.{decode_fixed64}
use cpp_cores.File.Stream.{
  Field, encode_trivial, encode_string, encode_all, read, decode_trivial, decode_string, decode_all,
}
use cpp_cores.File.Stream.RoundTrip.{
  input, output, TakesAll, Pairs, values, sources, targets, concat, decode_string-encode_string,
  decode_all-encode_all, encode_all-text,
}

abbrev eight : List ℕ
eight = 9 ∷ 9 ∷ 9 ∷ 9 ∷ 9 ∷ 9 ∷ 9 ∷ 9 ∷ []

-- The buffer of a stream in memory.
abbrev in_memory : List ℕ → List ℕ → ℕ
in_memory os bytes = length bytes

in_memory-TakesAll : TakesAll in_memory
in_memory-TakesAll os bytes = omega arith

-- On a stream that is not good the first value ends the calls, before the string.
not_good :
    encode_all in_memory 2
      (record { written = []; good = false })
      (Field.trivial (1 ∷ []))
      (Field.text (codes "hi") ∷ [])
    ≡ some (record { written = []; good = false }, false)
unfolding encode_all encode_trivial
not_good = refl

-- Without a byte to read, a string takes the size that the memory held before.
junk_size : (decode_string (input []) (2 ∷ 0 ∷ 0 ∷ 0 ∷ 0 ∷ 0 ∷ 0 ∷ 0 ∷ []) []).0 ≡ 0 ∷ 0 ∷ []
unfolding decode_string decode_trivial read decode_fixed64
junk_size = refl

decode_string-encode_string_example :
    decode_string
      (input ((encode_string in_memory (output []) (codes "hi")).0.written ++ (7 ∷ [])))
      eight
      (codes "old")
    ≡ (codes "hi", input (7 ∷ []))
decode_string-encode_string_example =
    decode_string-encode_string in_memory (codes "hi") (7 ∷ []) eight (codes "old")
      in_memory-TakesAll (omega arith) refl

abbrev two : Pairs
two = (4 ∷ 5 ∷ [], 0 ∷ 0 ∷ []) ∷ []

decode_all-encode_all_example :
    (encode_all in_memory 2 (output []) (Field.trivial (1 ∷ [])) (sources two)
      ≡ some (output (concat ((1 ∷ [], 0 ∷ []) ∷ two)), true))
    × (decode_all 2
          (input (concat ((1 ∷ [], 0 ∷ []) ∷ two) ++ (6 ∷ [])))
          (Field.trivial (0 ∷ []))
          (targets two)
        ≡ some ((1 ∷ []) ∷ values two, input (6 ∷ [])))
decode_all-encode_all_example =
    decode_all-encode_all in_memory 2 (1 ∷ []) (0 ∷ []) (6 ∷ []) two in_memory-TakesAll
      (omega arith) refl (refl, tt)

encode_all-text_example :
    encode_all in_memory 5 (output []) (Field.trivial (1 ∷ [])) (Field.text (codes "hi") ∷ [])
    ≡ none
encode_all-text_example =
    encode_all-text in_memory 5 [] (Field.trivial (1 ∷ [])) (Field.text (codes "hi") ∷ [])
      in_memory-TakesAll refl
