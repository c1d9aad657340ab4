-- ===== src/Container/ByteArray/Reading.antt =====
-- What `read` returns, on every branch.
use cpp_cores.Base.{
  ℕ, ◌+◌, ◌-◌, ◌*◌, ◌/◌, ◌%◌, ◌≤◌, ◌<◌, ◌≡◌, refl, sym, ap, ◌∙◌, Bool, false, none, some, ◌==◌,
  ◌||◌, leb, ltb, if◌then◌else◌, length, drop, arith, Bool-cases, inl, inr, ltb→lt,
}
use mathlib.Core.List.{flatten}
use native.Mathlib.Nat.{mod-lt, mul-add-div_right, div-lt_iff_lt-mul}
use cpp_cores.Container.ByteArray.{ByteArray, Read, slice, read_loop, read, after_read}
use cpp_cores.Container.ByteArray.Loops.{Blocks, read_loop-slice, read_loop-none}
use cpp_cores.Container.ByteArray.Flat.{
  flat, length-flatten, Blocks-drop, length-flatten-drop, slice-drop,
}
use cpp_cores.Container.ByteArray.Valid.{IsValid, get_read_size_lem, position_split, end-div}

-- Whether `read` reads through null.
abbrev pub past_end : ℕ → ByteArray → Bool
past_end n a = a.position == a.capacity || ltb a.capacity (a.position + n)

-- `m_cur` is null exactly when the position is at the end of the nodes.
pub cur-end : (a : ByteArray) → IsValid a → leb (length a.nodes) a.cur ≡ (a.position == a.capacity)
cur-end a v =
    let all : length (flatten a.nodes) ≡ length a.nodes * a.base_size =
      length-flatten a.base_size v.pos a.nodes v.blocks in
    let last : a.capacity / a.base_size ≡ length a.nodes = end-div a v in
    elim (Bool-cases (a.position == a.capacity)) [
      | inl e ↦
          let full : a.position ≡ a.capacity = ground arith in
          let same : a.cur ≡ length a.nodes = v.at ∙ ap (λ x. x / a.base_size) full ∙ last in
          rw e ground arith
      | inr e ↦
          let within : a.position < length a.nodes * a.base_size =
            ground (arith, v.inside, v.total) in
          let less : a.position / a.base_size < length a.nodes =
            (div-lt_iff_lt-mul v.pos).1 within in
          rw e ground (arith, v.at)
    ]

-- The loop, when `m_cur` is not null.
pub loop_read :
    (n : ℕ) (a : ByteArray)
    → IsValid a
    → (a.position == a.capacity) ≡ false
    → after_read n a (read_loop (a.position % a.base_size) n (drop a.cur a.nodes)) ≡ (
        if ltb a.capacity (a.position + n)
        then Read.null_access
        else Read.done
            (slice a.position n (flat a))
            (record a { cur = (a.position + n) / a.base_size; position = a.position + n }))
loop_read n a v h =
    let base : ℕ = a.base_size in
    let npos : ℕ = a.position % base in
    let split : a.cur * base + npos ≡ a.position = position_split a v in
    let low : a.cur * base ≤ length (flat a) = omega (arith, split, v.inside, v.total) in
    let left : length (flatten (drop a.cur a.nodes)) ≡ length (flat a) - a.cur * base =
      length-flatten-drop base v.pos a.cur a.nodes v.blocks in
    let blocks : Blocks base (drop a.cur a.nodes) = Blocks-drop base v.pos a.cur a.nodes v.blocks in
    let less : npos < base = mod-lt a.position v.pos in
    elim (Bool-cases (ltb a.capacity (a.position + n))) [
      | inl e ↦
          let over : a.capacity < a.position + n = ltb→lt _ _ e in
          let out : read_loop npos n (drop a.cur a.nodes) ≡ none =
            read_loop-none base v.pos npos n (drop a.cur a.nodes) blocks less
              (omega (arith, over, v.inside)) (omega (arith, over, left, split, v.total)) in
          rw (e, out) refl
      | inr e ↦
          let fits : a.position + n ≤ a.capacity = ground arith in
          let out : read_loop npos n (drop a.cur a.nodes)
              ≡ some (slice npos n (flatten (drop a.cur a.nodes)), (npos + n) / base) =
            read_loop-slice base v.pos npos n (drop a.cur a.nodes) blocks less
              (omega (arith, fits, left, split, v.total)) in
          let copied : slice npos n (flatten (drop a.cur a.nodes)) ≡ slice a.position n (flat a) =
            slice-drop base v.pos a.cur npos n a.nodes v.blocks low
            ∙ ap (λ p. slice p n (flat a)) split in
          let sum : a.position + n ≡ a.cur * base + (npos + n) = omega (arith, split) in
          let moved : a.cur + (npos + n) / base ≡ (a.position + n) / base =
            sym (ap (λ x. x / base) sum ∙ mul-add-div_right v.pos a.cur (npos + n)) in
          rw (e, out, copied, moved) refl
    ]

-- `read` throws when fewer bytes are left up to the size; it reads through null when the nodes
-- end before what is read, or when the position is at the end of the nodes, even for no bytes; else it
-- returns the bytes at the position and moves behind them.
pub read_refines :
    (n : ℕ) (a : ByteArray)
    → IsValid a
    → read n a ≡ (
        if ltb (a.size - a.position) n
        then Read.out_of_range
        else if past_end n a
        then Read.null_access
        else Read.done
            (slice a.position n (flat a))
            (record a { cur = (a.position + n) / a.base_size; position = a.position + n }))
unfolding read
read_refines n a v = elim (Bool-cases (ltb (a.size - a.position) n)) [
  | inl e ↦ rw (get_read_size_lem a v, e) refl
  | inr e ↦ elim (Bool-cases (a.position == a.capacity)) [
    | inl k ↦ rw (get_read_size_lem a v, e, cur-end a v, k) refl
    | inr k ↦ rw (get_read_size_lem a v, e, cur-end a v, k, loop_read n a v k) refl
  ]
]
