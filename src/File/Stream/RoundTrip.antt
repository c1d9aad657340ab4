-- ===== src/File/Stream/RoundTrip.antt =====
-- What is decoded is what was encoded; and strings among several values.
use cpp_cores.Base.{
  ℕ, zero, suc, ◌+◌, ◌-◌, ◌^◌, ◌<◌, ◌≤◌, ◌≡◌, refl, sym, ap, ◌∙◌, Bool, true, false, ◌||◌, List, [],
  ◌∷◌, ◌++◌, append-nil, append_assoc, none, some, leb, length, take, drop, map, replicate, arith,
  length-append,
}
use cpp_cores.Encoding.Fixed.{encode_fixed64, decode_fixed64}
use cpp_cores.Encoding.Fixed.RoundTrip.{fixed64_inverse}
use cpp_cores.File.Stream.{
  Field, encode_trivial, encode_string, encode_all, Output, write, and_encode, Input, read,
  decode_trivial, resize, decode_string, decode_all, bytes_of, prepend, and_then,
}

abbrev pub input : List ℕ → Input
input bytes = record { left = bytes; good = true }

take-append : (xs ys : List ℕ) → take (length xs) (xs ++ ys) ≡ xs
take-append [] ys = refl
take-append (x ∷ xs) ys = ap (λ l. x ∷ l) (take-append xs ys)

drop-append : (xs ys : List ℕ) → drop (length xs) (xs ++ ys) ≡ ys
drop-append [] ys = refl
drop-append (x ∷ xs) ys = drop-append xs ys

drop_all : (xs : List ℕ) → drop (length xs) xs ≡ []
drop_all [] = refl
drop_all (x ∷ xs) = drop_all xs

length-replicate : (n a : ℕ) → length (replicate n a) ≡ n
length-replicate zero a = refl
length-replicate (suc n) a = ap suc (length-replicate n a)

-- A read of as many bytes as stand at the front gives them.
read-append :
    (xs rest value : List ℕ)
    → length value ≡ length xs
    → read (input (xs ++ rest)) value ≡ (xs, input rest)
unfolding read
read-append xs rest value e =
    let enough : leb (length xs) (length (xs ++ rest)) ≡ true =
      ground (arith, length-append xs rest) in
    let gone : drop (length xs) value ≡ [] = ap (λ n. drop n value) (sym e) ∙ drop_all value in
    rw (e, take-append xs rest, drop-append xs rest, enough, gone, append-nil xs) refl

length-take : (n : ℕ) (xs : List ℕ) → length (take n xs) + (n - length xs) ≡ n
length-take zero xs = omega arith
length-take (suc n) [] = omega arith
length-take (suc n) (x ∷ xs) = omega (arith, length-take n xs)

length-resize : (value : List ℕ) (n : ℕ) → length (resize value n) ≡ n
length-resize value n = omega (
  arith,
  length-append (take n value) (replicate (n - length value) 0),
  length-replicate (n - length value) 0,
  length-take n value,
)

length-encode_fixed64 : (v : ℕ) → length (encode_fixed64 v) ≡ 8
unfolding encode_fixed64
length-encode_fixed64 v = refl

abbrev pub output : List ℕ → Output
output bytes = record { written = bytes; good = true }

take_enough : (n : ℕ) (xs : List ℕ) → length xs ≤ n → take n xs ≡ xs
take_enough zero [] h = refl
take_enough (suc n) [] h = refl
take_enough zero (x ∷ xs) h = absurd (omega arith)
take_enough (suc n) (x ∷ xs) h = ap (λ l. x ∷ l) (take_enough n xs (omega arith))

-- The buffer takes all that is written to it, as one in memory does.
abbrev pub TakesAll : (List ℕ → List ℕ → ℕ) → Type 0
TakesAll accepts = (os bytes : List ℕ) → length bytes ≤ accepts os bytes

write_lem :
    (accepts : List ℕ → List ℕ → ℕ) (os bytes : List ℕ)
    → TakesAll accepts
    → write accepts (output os) bytes ≡ output (os ++ bytes)
write_lem accepts os bytes all =
    let fits : leb (length bytes) (accepts os bytes) ≡ true = ground (arith, all os bytes) in
    rw (fits, take_enough (accepts os bytes) bytes (all os bytes)) refl

encode_trivial_lem :
    (accepts : List ℕ → List ℕ → ℕ) (os bytes : List ℕ)
    → TakesAll accepts
    → encode_trivial accepts (output os) bytes ≡ (output (os ++ bytes), true)
unfolding encode_trivial
encode_trivial_lem accepts os bytes all =
    ap (λ (o : Output). (o, o.good)) (write_lem accepts os bytes all)

encode_string_lem :
    (accepts : List ℕ → List ℕ → ℕ) (value : List ℕ)
    → TakesAll accepts
    → (encode_string accepts (output []) value).0.written ≡ encode_fixed64 (length value) ++ value
unfolding encode_string
encode_string_lem accepts value all =
    let code = encode_fixed64 (length value) in
    ap (λ (p : Output × Bool). (write accepts p.0 value).written)
      (encode_trivial_lem accepts [] code all)
    ∙ ap (λ (o : Output). o.written) (write_lem accepts code value all)

-- A string that is encoded, to a stream that takes all of it, and decoded with the type given is the
-- string again, whatever follows it and whatever the variables held before.
pub decode_string-encode_string :
    (accepts : List ℕ → List ℕ → ℕ) (value rest junk old : List ℕ)
    → TakesAll accepts
    → length value < 2 ^ 64
    → length junk ≡ 8
    → decode_string (input ((encode_string accepts (output []) value).0.written ++ rest)) junk old
      ≡ (value, input rest)
unfolding decode_string decode_trivial
decode_string-encode_string accepts value rest junk old all small eight =
    let n = length value in
    let code = encode_fixed64 n in
    let front : read (input ((code ++ value) ++ rest)) junk ≡ (code, input (value ++ rest)) =
      ap (λ l. read (input l) junk) (append_assoc code value rest)
      ∙ read-append code (value ++ rest) junk (eight ∙ sym (length-encode_fixed64 n)) in
    let sized : length (resize old (decode_fixed64 code)) ≡ length value =
      length-resize old (decode_fixed64 code) ∙ fixed64_inverse n small in
    let second = λ (p : List ℕ × Input). read p.1 (resize old (decode_fixed64 p.0)) in
    ap (λ (l : List ℕ). second (read (input (l ++ rest)) junk))
      (encode_string_lem accepts value all)
    ∙ ap second front
    ∙ read-append value rest (resize old (decode_fixed64 code)) sized

-- Values to encode, each beside the old value that it is decoded onto.
abbrev pub Pairs : Type 0
Pairs = List (List ℕ × List ℕ)

abbrev pub Sized : Pairs → Type 0
Sized [] = Unit {0}
Sized ((x, y) ∷ ps) = (length y ≡ length x) × Sized ps

abbrev pub concat : Pairs → List ℕ
concat [] = []
concat ((x, y) ∷ ps) = x ++ concat ps

abbrev pub values : Pairs → List (List ℕ)
values ps = map (λ p. p.0) ps

abbrev pub sources : Pairs → List Field
sources ps = map (λ p. Field.trivial p.0) ps

abbrev pub targets : Pairs → List Field
targets ps = map (λ p. Field.trivial p.1) ps

encode_trivials :
    (accepts : List ℕ → List ℕ → ℕ) (all : TakesAll accepts) (calls : ℕ) (os x y : List ℕ)
    (ps : Pairs)
    → length ps < calls
    → encode_all accepts calls (output os) (Field.trivial x) (sources ps)
      ≡ some (output (os ++ concat ((x, y) ∷ ps)), true)
unfolding encode_all
encode_trivials accepts all zero os x y ps h = absurd (omega arith)
encode_trivials accepts all (suc calls) os x y [] h =
    ap some (encode_trivial_lem accepts os x all)
    ∙ ap (λ l. some (output (os ++ l), true)) (sym (append-nil x))
encode_trivials accepts all (suc zero) os x y (p ∷ ps) h = absurd (omega arith)
encode_trivials accepts all (suc (suc calls)) os x y ((x', y') ∷ ps) h =
    let further =
      λ (o : Output). encode_all accepts (suc calls) o (Field.trivial x') (sources ps) in
    ap (λ (p : Output × Bool). and_encode (some p) further) (encode_trivial_lem accepts os x all)
    ∙ encode_trivials accepts all (suc calls) (os ++ x) x' y' ps (omega arith)
    ∙ ap (λ l. some (output l, true)) (append_assoc os x (x' ++ concat ps))

decode_trivials :
    (calls : ℕ) (x y rest : List ℕ) (ps : Pairs)
    → length ps < calls
    → length y ≡ length x
    → Sized ps
    → decode_all calls (input (concat ((x, y) ∷ ps) ++ rest)) (Field.trivial y) (targets ps)
      ≡ some (x ∷ values ps, input rest)
unfolding decode_all decode_trivial
decode_trivials zero x y rest ps h e es = absurd (omega arith)
decode_trivials (suc calls) x y rest [] h e es =
    ap (λ (p : List ℕ × Input). some (p.0 ∷ [], p.1))
      (ap (λ l. read (input (l ++ rest)) y) (append-nil x) ∙ read-append x rest y e)
decode_trivials (suc zero) x y rest (p ∷ ps) h e es = absurd (omega arith)
decode_trivials (suc (suc calls)) x y rest ((x', y') ∷ ps) h e (e', es) =
    let after = x' ++ concat ps in
    let first : read (input ((x ++ after) ++ rest)) y ≡ (x, input (after ++ rest)) =
      ap (λ l. read (input l) y) (append_assoc x after rest) ∙ read-append x (after ++ rest) y e in
    let further = λ (is : Input). decode_all (suc calls) is (Field.trivial y') (targets ps) in
    let untouched = map bytes_of (targets ((x', y') ∷ ps)) in
    ap (λ (p : List ℕ × Input). and_then (some (p.0 ∷ [], p.1)) untouched further) first
    ∙ ap (prepend (x ∷ [])) (decode_trivials (suc calls) x' y' rest ps (omega arith) e' es)

-- Values of trivially copyable types are written one after the other, to a stream that takes all of them,
-- and decoded onto values of the same types they are the same again, whatever follows them; one call for
-- each value is enough.
pub decode_all-encode_all :
    (accepts : List ℕ → List ℕ → ℕ) (calls : ℕ) (x y rest : List ℕ) (ps : Pairs)
    → TakesAll accepts
    → length ps < calls
    → length y ≡ length x
    → Sized ps
    → (encode_all accepts calls (output []) (Field.trivial x) (sources ps)
        ≡ some (output (concat ((x, y) ∷ ps)), true))
      × (decode_all calls (input (concat ((x, y) ∷ ps) ++ rest)) (Field.trivial y) (targets ps)
          ≡ some (x ∷ values ps, input rest))
decode_all-encode_all accepts calls x y rest ps all h e es =
    (encode_trivials accepts all calls [] x y ps h, decode_trivials calls x y rest ps h e es)

abbrev pub is_text : Field → Bool
is_text (Field.trivial value) = false
is_text (Field.text value) = true

abbrev pub any_text : List Field → Bool
any_text [] = false
any_text (t ∷ args) = is_text t || any_text args

-- With a string among the values, on a stream that is good and takes all that is written before it, the
-- calls do not end, whatever their number.
pub encode_all-text :
    (accepts : List ℕ → List ℕ → ℕ) (calls : ℕ) (os : List ℕ) (t : Field) (args : List Field)
    → TakesAll accepts
    → any_text (t ∷ args) ≡ true
    → encode_all accepts calls (output os) t args ≡ none
unfolding encode_all
encode_all-text accepts zero os t args all h = refl
encode_all-text accepts (suc calls) os (Field.trivial value) [] all h = absurd (ground arith)
encode_all-text accepts (suc calls) os (Field.text value) [] all h =
    encode_all-text accepts calls os (Field.text value) [] all refl
encode_all-text accepts (suc zero) os t (arg ∷ args) all h = refl
encode_all-text accepts (suc (suc calls)) os (Field.trivial value) (arg ∷ args) all h =
    let further = λ (o : Output). encode_all accepts (suc calls) o arg args in
    ap (λ (p : Output × Bool). and_encode (some p) further)
      (encode_trivial_lem accepts os value all)
    ∙ encode_all-text accepts (suc calls) (os ++ value) arg args all h
encode_all-text accepts (suc (suc calls)) os (Field.text value) (arg ∷ args) all h =
    rw (encode_all-text accepts (suc calls) os (Field.text value) [] all refl) refl
