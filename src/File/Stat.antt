-- ===== src/File/Stat.antt =====
-- src/utils/process_util.cc: `GetThreadStat`, `GetThreadJiffies` and `GetProcessStat`, with the extractions
-- of `std::istream` that they use, in the locale "C". A file is its text, or none when it cannot be opened;
-- the size of a page is a parameter. A sum or a product outside the range of `int64_t` is undefined in the
-- source: what it gives is the parameter `overflow`.
pub mod Extract
pub mod Fields
pub mod Jiffies
mod Tests
use cpp_cores.Base.{
  ℕ, zero, suc, ◌+◌, ◌-◌, ◌*◌, ◌%◌, ◌^◌, Bool, true, false, ◌&&◌, ◌||◌, List, [], ◌∷◌, ◌++◌, Option,
  none, some, ◌==◌, leb, ltb, if◌then◌else◌, length, take, drop, get_or, codes,
}
use cpp_cores.Base.Int.{ℤ, pos, negsuc, neg, sub_ℕ, ◌+ℤ◌, times}
use cpp_cores.File.Stream.{Input}

unfoldable pub is_space : ℕ → Bool
is_space c = c == 32 || leb 9 c && leb c 13

unfoldable pub is_digit : ℕ → Bool
is_digit c = leb b'0' c && leb c b'9'

unfoldable pub skip_space : List ℕ → List ℕ
skip_space [] = []
skip_space (c ∷ s) = let rest = skip_space s in if is_space c then rest else c ∷ s

-- The longest part at the front whose characters pass a test, and what follows it.
unfoldable pub span : (ℕ → Bool) → List ℕ → List ℕ × List ℕ
span test [] = ([], [])
span test (c ∷ s) = let (w, rest) = span test s in if test c then (c ∷ w, rest) else ([], c ∷ s)

abbrev pub is_empty : List ℕ → Bool
is_empty [] = true
is_empty (c ∷ s) = false

-- What is left after an extraction, which is not good at the end of the text.
abbrev pub left_with : Bool → List ℕ → Input
left_with ok rest = record { left = rest; good = if is_empty rest then false else ok }

abbrev pub in_word : ℕ → Bool
in_word c = if is_space c then false else true

-- `is >> s`, for a string that keeps its value when there is no word.
unfoldable pub get_word : Input → List ℕ → List ℕ × Input
get_word is old =
    let s = skip_space is.left in
    let (w, rest) = span in_word s in
    if is.good
    then (if is_empty s then (old, left_with false []) else (w, left_with true rest))
    else (old, is)

-- The number that decimal digits stand for, after `n`.
unfoldable pub number : ℕ → List ℕ → ℕ
number n [] = n
number n (c ∷ s) = number (n * 10 + (c - b'0')) s

-- The sign at the front, and the rest.
abbrev pub sign : List ℕ → Bool × List ℕ
sign [] = (false, [])
sign (c ∷ s) = if c == b'-' then (true, s) else if c == b'+' then (false, s) else (false, c ∷ s)

-- A number with its sign, clamped to `int64_t`, and whether it was in range.
abbrev pub to_int64 : Bool → ℕ → ℤ × Bool
to_int64 true n = if leb n (2 ^ 63) then (neg n, true) else (neg (2 ^ 63), false)
to_int64 false n = if ltb n (2 ^ 63) then (pos n, true) else (pos (2 ^ 63 - 1), false)

-- The same for `uint64_t`, where a minus negates modulo 2^64.
abbrev pub to_uint64 : Bool → ℕ → ℤ × Bool
to_uint64 negative n =
    if ltb n (2 ^ 64)
    then (if negative then (pos ((2 ^ 64 - n) % 2 ^ 64), true) else (pos n, true))
    else (pos (2 ^ 64 - 1), false)

-- `is >> n`, for a type that is given by its conversion. Without digits the number becomes 0.
unfoldable pub get_number : (Bool → ℕ → ℤ × Bool) → Input → ℤ → ℤ × Input
get_number to is old =
    let s = skip_space is.left in
    let (negative, s') = sign s in
    let (digits, rest) = span is_digit s' in
    let (n, ok) = to negative (number 0 digits) in
    if is.good
    then (if is_empty s
        then (old, left_with false [])
        else if is_empty digits
        then (pos 0, left_with false rest)
        else (n, left_with ok rest))
    else (old, is)

-- So many strings, of which only the stream is used afterwards.
pub skip_words : ℕ → Input → Input
skip_words zero is = is
skip_words (suc n) is = skip_words n (get_word is []).1

pub record ThreadStat : Type 0 where
  pub thread_name : List ℕ
  pub virtual_memory_bytes : ℤ
  pub physical_memory_bytes : ℤ
  pub jiffies : ℤ

-- A number of `uint64_t` as one of `int64_t`.
abbrev pub wrap_int64 : ℤ → ℤ
wrap_int64 (pos n) = if ltb n (2 ^ 63) then pos n else neg (2 ^ 64 - n)
wrap_int64 (negsuc n) = negsuc n

-- `comm` without its parentheses, or all of it when there is nothing between them. `right` is one more than
-- the source's.
pub trim : List ℕ → List ℕ
trim comm =
    let left : ℕ = if get_or comm 0 0 == b'(' then 1 else 0 in
    let size = length comm in
    let right = if get_or comm (size - 1) 0 == b')' then size - 1 else size in
    if ltb left right then take (right - left) (drop left comm) else comm

abbrev pub opened : Option (List ℕ) → Input
opened none = record { left = []; good = false }
opened (some text) = left_with true text

abbrev pub in_int64 : ℤ → Bool
in_int64 (pos n) = ltb n (2 ^ 63)
in_int64 (negsuc n) = ltb n (2 ^ 63)

abbrev pub int64 : (ℤ → ℤ) → ℤ → ℤ
int64 overflow x = if in_int64 x then x else overflow x

-- The assignments at the end.
abbrev pub fill : ℕ → (ℤ → ℤ) → ThreadStat → List ℕ → ℤ → ℤ → ℤ → ℤ → ThreadStat
fill page_size overflow stat comm utime stime vsize rss = record {
  thread_name = if is_empty comm then stat.thread_name else trim comm;
  virtual_memory_bytes = wrap_int64 vsize;
  physical_memory_bytes = int64 overflow (times rss page_size);
  jiffies = int64 overflow (utime +ℤ stime);
}

-- `vsize` and `rss` hold `junk` and `junk'` before they are read.
pub get_thread_stat : ℕ → (ℤ → ℤ) → ℤ → ℤ → Option (List ℕ) → ThreadStat → ThreadStat
get_thread_stat page_size overflow junk junk' stat_file stat =
    let (pid, s1) = get_word (opened stat_file) [] in
    let (comm, s2) = get_word s1 [] in
    let (utime, s3) = get_number to_int64 (skip_words 11 s2) (pos 0) in
    let (stime, s4) = get_number to_int64 s3 (pos 0) in
    let (vsize, s5) = get_number to_uint64 (skip_words 7 s4) junk in
    let (rss, s6) = get_number to_int64 s5 junk' in
    fill page_size overflow stat comm utime stime vsize rss

abbrev pub no_stat : ThreadStat
no_stat = record {
  thread_name = [];
  virtual_memory_bytes = pos 0;
  physical_memory_bytes = pos 0;
  jiffies = pos 0;
}

-- What `readdir` gives for a name, and the text of the file `stat` under it.
pub record Entry : Type 0 where
  pub name : List ℕ
  pub is_dir : Bool
  pub stat : Option (List ℕ)

unfoldable pub same : List ℕ → List ℕ → Bool
same [] [] = true
same [] (d ∷ t) = false
same (c ∷ s) [] = false
same (c ∷ s) (d ∷ t) = c == d && same s t

-- The map from groups to jiffies, in which a new key starts at 0.
pub value_at : List ℕ → List (List ℕ × ℤ) → ℤ
value_at k [] = pos 0
value_at k ((j, v) ∷ m) = let rest = value_at k m in if same j k then v else rest

pub add_at : (ℤ → ℤ) → List ℕ → ℤ → List (List ℕ × ℤ) → List (List ℕ × ℤ)
add_at overflow k v [] = (k, int64 overflow (pos 0 +ℤ v)) ∷ []
add_at overflow k v ((j, w) ∷ m) =
    let rest = add_at overflow k v m in
    if same j k then (j, int64 overflow (w +ℤ v)) ∷ m else (j, w) ∷ rest

module _ (page_size : ℕ) (overflow : ℤ → ℤ) (junk junk' : ℤ) (classifier : List ℕ → List ℕ) where
  -- One round of the loop over the directory.
  pub count_entry : Entry → List (List ℕ × ℤ) → List (List ℕ × ℤ)
  count_entry e output =
      let stat = get_thread_stat page_size overflow junk junk' e.stat no_stat in
      if same e.name (codes ".") || same e.name (codes "..")
      then output
      else if e.is_dir
      then add_at overflow (classifier stat.thread_name) stat.jiffies output
      else output

  pub count_entries : List Entry → List (List ℕ × ℤ) → List (List ℕ × ℤ)
  count_entries [] output = output
  count_entries (e ∷ es) output = count_entries es (count_entry e output)

  -- `GetThreadJiffies`, on the entries of the directory if it can be opened.
  pub get_thread_jiffies : Option (List Entry) → List (List ℕ × ℤ)
  get_thread_jiffies none = []
  get_thread_jiffies (some es) = count_entries es []

pub record ProcessStat : Type 0 where
  pub virtual_memory_bytes : ℤ
  pub physical_memory_bytes : ℤ
  pub total_jiffies : ℤ
  pub threadpool_jiffies : List (List ℕ × ℤ)

-- `GetProcessStat`, with the text of `/proc/self/stat` and the directory `/proc/self/task`.
pub get_process_stat :
    ℕ
    → (ℤ → ℤ)
    → ℤ
    → ℤ
    → Option (List ℕ → List ℕ)
    → Option (List ℕ)
    → Option (List Entry)
    → ProcessStat
get_process_stat page_size overflow junk junk' classifier self task =
    let t_stat = get_thread_stat page_size overflow junk junk' self no_stat in
    record {
      virtual_memory_bytes = t_stat.virtual_memory_bytes;
      physical_memory_bytes = t_stat.physical_memory_bytes;
      total_jiffies = t_stat.jiffies;
      threadpool_jiffies = elim classifier [
        | none ↦ []
        | some f ↦ get_thread_jiffies page_size overflow junk junk' f task
      ];
    }
