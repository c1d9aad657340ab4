-- ===== src/Container/ByteArray.antt =====
-- src/utils/bytearray.h and src/utils/bytearray.cc: `ByteArray`. The linked nodes are the list `nodes`
-- of their blocks, from `m_root` on; `m_cur` is the number of its node, and the number of the nodes when
-- it is null. `fresh i` is what the block of node `i` holds when `new` returns it. A sum of sizes
-- counts bytes of memory that there are, so it does not wrap; a difference wraps at 2^64.
mod Copy
mod Loops
mod Flat
mod Valid
mod Writing
pub mod Reading
pub mod Sequence
mod Tests
use cpp_cores.Base.{
  ℕ, zero, suc, ◌+◌, ◌-◌, ◌*◌, ◌/◌, ◌%◌, ◌^◌, max, Bool, true, false, List, [], ◌∷◌, ◌++◌, Option,
  none, some, ◌==◌, leb, ltb, if◌then◌else◌, length, take, drop, ◌||◌,
}

abbrev pub w64 : ℕ
w64 = 2 ^ 64

-- `m_endian` is true for big-endian.
pub record ByteArray : Type 0 where
  pub base_size : ℕ
  pub position : ℕ
  pub capacity : ℕ
  pub size : ℕ
  pub big_endian : Bool
  pub nodes : List (List ℕ)
  pub cur : ℕ

-- What `read` does: it fills the buffer, throws, or reads through a null `m_cur`.
pub data Read : Type 0 where
  done : (buf : List ℕ) (after : ByteArray) → Read
  out_of_range : Read
  null_access : Read

-- `memcpy` into a block at a position.
pub overwrite : ℕ → List ℕ → List ℕ → List ℕ
overwrite zero [] l = l
overwrite zero (b ∷ bs) [] = []
overwrite zero (b ∷ bs) (x ∷ xs) = b ∷ overwrite zero bs xs
overwrite (suc p) bs [] = []
overwrite (suc p) bs (x ∷ xs) = x ∷ overwrite p bs xs

-- `memcpy` out of a block, of `n` bytes at a position.
pub slice : ℕ → ℕ → List ℕ → List ℕ
slice p zero l = []
slice p (suc n) [] = []
slice zero (suc n) (x ∷ xs) = x ∷ slice zero n xs
slice (suc p) (suc n) (x ∷ xs) = slice p (suc n) xs

pub new : (ℕ → List ℕ) → ℕ → ByteArray
new fresh base_size = record {
  base_size = base_size;
  position = 0;
  capacity = base_size;
  size = 0;
  big_endian = true;
  nodes = fresh 0 ∷ [];
  cur = 0;
}

pub get_capacity : ByteArray → ℕ
get_capacity a = (a.capacity + w64 - a.position) % w64

pub get_read_size : ByteArray → ℕ
get_read_size a = (a.size + w64 - a.position) % w64

pub clear : ByteArray → ByteArray
clear a = record a { position = 0; capacity = a.base_size; nodes = take 1 a.nodes; cur = 0 }

pub new_nodes : (ℕ → List ℕ) → ℕ → ℕ → List (List ℕ)
new_nodes fresh i zero = []
new_nodes fresh i (suc count) = fresh i ∷ new_nodes fresh (suc i) count

-- The `ceil` of the quotient of two doubles is exact below 2^53.
pub add_capacity : (ℕ → List ℕ) → ℕ → ByteArray → ByteArray
add_capacity fresh size a =
    let old_cap = get_capacity a in
    let count = (size - old_cap + a.base_size - 1) / a.base_size in
    let last = length a.nodes in
    if size == 0 || leb size old_cap then a else record a {
      nodes = a.nodes ++ new_nodes fresh last count;
      capacity = a.capacity + count * a.base_size;
      cur = if old_cap == 0 then last else a.cur;
    }

-- A node that is full, before what the loop does in the next ones.
abbrev pub beyond : List ℕ → Option (List (List ℕ) × ℕ) → Option (List (List ℕ) × ℕ)
beyond node none = none
beyond node (some (nodes, moved)) = some (node ∷ nodes, suc moved)

-- The loop of `write` over the nodes from `m_cur` on: how they are after it, and by how many nodes
-- `m_cur` has moved. `none` is an access through a null `m_cur`.
pub write_loop : ℕ → List ℕ → List (List ℕ) → Option (List (List ℕ) × ℕ)
write_loop npos [] nodes = some (nodes, 0)
write_loop npos (b ∷ bs) [] = none
write_loop npos (b ∷ bs) (node ∷ nodes) =
    let buf = b ∷ bs in
    let ncap = length node - npos in
    let rest = write_loop 0 (drop ncap buf) nodes in
    let moved = if length node == npos + length buf then 1 else 0 in
    if leb (length buf) ncap
    then some (overwrite npos buf node ∷ nodes, moved)
    else beyond (overwrite npos (take ncap buf) node) rest

abbrev pub after_write : ℕ → ByteArray → Option (List (List ℕ) × ℕ) → Option ByteArray
after_write n a none = none
after_write n a (some (nodes, moved)) = some (record a {
  nodes = take a.cur a.nodes ++ nodes;
  cur = a.cur + moved;
  position = a.position + n;
  size = if ltb a.size (a.position + n) then a.position + n else a.size;
})

pub write : (ℕ → List ℕ) → List ℕ → ByteArray → Option ByteArray
write fresh buf a =
    let a' = add_capacity fresh (length buf) a in
    let npos = a'.position % a'.base_size in
    if length buf == 0
    then some a
    else after_write (length buf) a' (write_loop npos buf (drop a'.cur a'.nodes))

abbrev pub beyond_read : List ℕ → Option (List ℕ × ℕ) → Option (List ℕ × ℕ)
beyond_read bytes none = none
beyond_read bytes (some (buf, moved)) = some (bytes ++ buf, suc moved)

-- The loop of `read`: the bytes read, and by how many nodes `m_cur` has moved.
pub read_loop : ℕ → ℕ → List (List ℕ) → Option (List ℕ × ℕ)
read_loop npos zero nodes = some ([], 0)
read_loop npos (suc n) [] = none
read_loop npos (suc n) (node ∷ nodes) =
    let size = suc n in
    let ncap = length node - npos in
    let rest = read_loop 0 (size - ncap) nodes in
    let moved = if length node == npos + size then 1 else 0 in
    if leb size ncap
    then some (slice npos size node, moved)
    else beyond_read (slice npos ncap node) rest

abbrev pub after_read : ℕ → ByteArray → Option (List ℕ × ℕ) → Read
after_read n a none = Read.null_access
after_read n a (some (buf, moved)) =
    Read.done buf (record a { cur = a.cur + moved; position = a.position + n })

-- `m_cur->size` is read before the loop.
pub read : ℕ → ByteArray → Read
read n a =
    let npos = a.position % a.base_size in
    let buf = read_loop npos n (drop a.cur a.nodes) in
    if ltb (get_read_size a) n
    then Read.out_of_range
    else if leb (length a.nodes) a.cur
    then Read.null_access
    else after_read n a buf
