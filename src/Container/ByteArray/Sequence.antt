-- ===== src/Container/ByteArray/Sequence.antt =====
-- Several calls in a row.
use cpp_cores.Base.{
  ℕ, zero, suc, ◌+◌, ◌-◌, ◌/◌, ◌≤◌, ◌<◌, ◌≡◌, refl, sym, ap, ◌∙◌, true, false, List, [], ◌∷◌, ◌++◌,
  Option, none, some, ◌==◌, ltb, if◌then◌else◌, length, take, arith, Bool-cases, inl, inr,
  length-append, append-nil, append_assoc,
}
use mathlib.Core.List.{flatten}
use native.Mathlib.Nat.{div-eq_of_lt}
use cpp_cores.Container.ByteArray.{ByteArray, Read, w64, overwrite, slice, new, clear, write, read}
use cpp_cores.Container.ByteArray.Copy.{length-overwrite, slice-overwrite, slice-append}
use cpp_cores.Container.ByteArray.Loops.{Blocks}
use cpp_cores.Container.ByteArray.Flat.{flat, Blocks-take}
use cpp_cores.Container.ByteArray.Valid.{IsValid, new-IsValid}
use cpp_cores.Container.ByteArray.Writing.{write_refines}
use cpp_cores.Container.ByteArray.Reading.{read_refines}

-- One `write` after the other.
unfoldable pub write_all : (ℕ → List ℕ) → List (List ℕ) → ByteArray → Option ByteArray
write_all fresh [] a = some a
write_all fresh (buf ∷ bufs) a = elim (write fresh buf a) [
  | none ↦ none
  | some a' ↦ write_all fresh bufs a'
]

-- The memory that the writes can take.
unfoldable pub demand : ℕ → List (List ℕ) → ℕ
demand base [] = 0
demand base (buf ∷ bufs) = length buf + base + demand base bufs

pub slice-prefix : (n : ℕ) (xs ys : List ℕ) → n ≤ length xs → slice 0 n (xs ++ ys) ≡ slice 0 n xs
unfolding slice
slice-prefix n xs ys h =
    slice-append 0 n xs ys (length xs - 0) (0 - length xs) 0 refl refl (omega arith)
    ∙ append-nil (slice 0 n xs)

-- The bytes up to the end of a copy.
pub slice-overwrite_upto :
    (p : ℕ) (bs xs : List ℕ) (m : ℕ)
    → m ≡ p + length bs
    → m ≤ length xs
    → slice 0 m (overwrite p bs xs) ≡ slice 0 p xs ++ bs
unfolding slice overwrite
slice-overwrite_upto zero bs xs m h g =
    let e : m ≡ length bs = omega arith in rw e (slice-overwrite zero bs xs (omega arith))
slice-overwrite_upto (suc p) bs [] m h g = absurd (omega arith)
slice-overwrite_upto (suc p) bs (x ∷ xs) zero h g = absurd (omega arith)
slice-overwrite_upto (suc p) bs (x ∷ xs) (suc m) h g =
    ap (λ l. x ∷ l) (slice-overwrite_upto p bs xs m (omega arith) (omega arith))

-- Nothing can be read where the position is at the size.
pub read_nothing :
    (a : ByteArray)
    → IsValid a
    → a.position ≡ a.size
    → (n : ℕ) → 0 < n
    → read n a ≡ Read.out_of_range
read_nothing a v e n h =
    let short : ltb (a.size - a.position) n ≡ true = ground arith in
    read_refines n a v ∙ rw short refl

pub write_all_appends :
    (fresh : ℕ → List ℕ) (base : ℕ) (bufs : List (List ℕ)) (a : ByteArray)
    → ((j : ℕ) → length (fresh j) ≡ base)
    → a.base_size ≡ base
    → IsValid a
    → a.position ≡ a.size
    → a.capacity + demand base bufs < w64
    → (a' : ByteArray) × (write_all fresh bufs a ≡ some a'
        × (IsValid a' × a'.position ≡ a'.size)
        × slice 0 a'.size (flat a') ≡ slice 0 a.size (flat a) ++ flatten bufs)
unfolding write_all flatten demand
write_all_appends fresh base [] a f b v e s = (a, (refl, (v, e), sym (append-nil _)))
write_all_appends fresh base (buf ∷ bufs) a f b v e s =
    let (a1, (wrote, v1, (more, copied), (position1, size1, base1, capacity1))) =
      write_refines fresh buf a (λ j. f j ∙ sym b) v (omega (arith, s, b)) in
    let end1 : a1.position ≡ a1.size = ground (arith, position1, size1, e) in
    let (a2, (rest, valid, content)) =
      write_all_appends fresh base bufs a1 f (base1 ∙ b) v1 end1 (omega (arith, s, capacity1, b)) in
    let upto : a1.size ≡ a.position + length buf = omega (arith, position1, end1) in
    let room : a1.size ≤ length (overwrite a.position buf (flat a ++ more)) =
      rw (← copied) omega (arith, v1.inside, v1.total, end1) in
    let before : slice 0 a.position (flat a ++ more) ≡ slice 0 a.size (flat a) =
      slice-prefix a.position (flat a) more (omega (arith, v.inside, v.total))
      ∙ ap (λ p. slice 0 p (flat a)) e in
    let first : slice 0 a1.size (flat a1) ≡ slice 0 a.size (flat a) ++ buf = rw copied (
      slice-overwrite_upto a.position buf (flat a ++ more) a1.size upto
        (omega (arith, room, length-overwrite a.position buf (flat a ++ more)))
      ∙ ap (λ l. l ++ buf) before) in
    (
      a2,
      (
        ap (λ o. elim o [ none ↦ none | some x ↦ write_all fresh bufs x ]) wrote ∙ rest,
        valid,
        content
            ∙ ap (λ l. l ++ flatten bufs) first
            ∙ append_assoc (slice 0 a.size (flat a)) buf (flatten bufs),
      ),
    )

-- The calls of `write` on a new array append: up to the size the nodes hold what was written, one after
-- the other, and `read` throws for any number of bytes but 0, since the position stays at the size.
-- Each block is as large as it was asked for, and what the calls can allocate is below 2^64.
pub writes_append :
    (fresh : ℕ → List ℕ) (base : ℕ) (bufs : List (List ℕ))
    → ((j : ℕ) → length (fresh j) ≡ base)
    → 0 < base
    → base + demand base bufs < w64
    → (a : ByteArray) × (write_all fresh bufs (new fresh base) ≡ some a
        × slice 0 a.size (flat a) ≡ flatten bufs
        × ((n : ℕ) → 0 < n → read n a ≡ Read.out_of_range))
unfolding new slice
writes_append fresh base bufs f p s =
    let (a, (done, (v, e), content)) =
      write_all_appends fresh base bufs (new fresh base) f refl
        (new-IsValid fresh base (f 0) p (omega (arith, s))) refl s in
    (a, (done, content, read_nothing a v e))

pub first_block :
    (base : ℕ) (ns : List (List ℕ))
    → Blocks base ns
    → 0 < length (flatten ns)
    → length (flatten (take 1 ns)) ≡ base
      × ((n : ℕ) → n ≤ base → slice 0 n (flatten (take 1 ns)) ≡ slice 0 n (flatten ns))
unfolding flatten
first_block base [] h p = absurd (omega arith)
first_block base (node ∷ ns) (h, hs) p = (
  omega (arith, length-append node [], h),
  λ n l.
      slice-prefix n node [] (omega (arith, h))
      ∙ sym (slice-prefix n node (flatten ns) (omega (arith, h))),
)

pub clear-IsValid : (a : ByteArray) → IsValid a → a.base_size < w64 → IsValid (clear a)
unfolding clear
clear-IsValid a v s =
    let (size, same) = first_block a.base_size a.nodes v.blocks (omega (arith, v.root, v.total)) in
    record {
      pos = v.pos;
      root = v.pos;
      blocks = Blocks-take a.base_size v.pos 1 a.nodes v.blocks;
      total = sym size;
      at = sym (div-eq_of_lt v.pos);
      inside = omega arith;
      filled = omega arith;
      short = s;
      small = v.small;
    }

-- `clear` keeps the size: after it `read` returns the first bytes that the nodes had, throws only past
-- the old size, and reads through null where the first node ends before that.
pub read-clear :
    (n : ℕ) (a : ByteArray)
    → IsValid a
    → a.base_size < w64
    → read n (clear a) ≡ (
        if ltb a.size n
        then Read.out_of_range
        else if ltb a.base_size n
        then Read.null_access
        else Read.done
            (slice 0 n (flat a))
            (record (clear a) { cur = n / a.base_size; position = n }))
unfolding clear
read-clear n a v s =
    let (size, same) = first_block a.base_size a.nodes v.blocks (omega (arith, v.root, v.total)) in
    let all : read n (clear a) ≡ _ = read_refines n (clear a) (clear-IsValid a v s) in
    let sub : a.size - 0 ≡ a.size = omega arith in
    let add : 0 + n ≡ n = omega arith in
    let not_end : (0 == a.base_size) ≡ false = ground (arith, v.pos) in
    all
    ∙ rw (sub, add, not_end)
        (elim (Bool-cases (ltb a.base_size n)) [
          | inl e ↦ rw e refl
          | inr e ↦
              let first : slice 0 n (flatten (take 1 a.nodes)) ≡ slice 0 n (flatten a.nodes) =
                same n (ground arith) in
              rw (e, first) refl
        ])
