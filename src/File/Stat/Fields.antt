-- ===== src/File/Stat/Fields.antt =====
-- What `GetThreadStat` reads from a line of the kernel.
use cpp_cores.Base.{
  ℕ, ◌+◌, ◌-◌, ◌*◌, ◌^◌, ◌<◌, ◌≡◌, refl, sym, ap, ◌∙◌, Bool, true, false, List, [], ◌∷◌, ◌++◌, some,
  ltb, if◌then◌else◌, length, take, get_or, All, arith, length-append,
}
use cpp_cores.File.Stream.{Input}
use cpp_cores.Base.Int.{ℤ}
use cpp_cores.File.Stat.{
  is_empty, get_word, number, to_int64, to_uint64, get_number, skip_words, ThreadStat, trim, opened,
  fill, get_thread_stat,
}
use cpp_cores.File.Stat.Extract.{
  input, IsWord, IsNumeral, line, is_empty-append, get_word_lem, get_word_first, skip_words_lem,
  get_number_lem,
}

-- The words of a line: the process, its name, eleven words, two numerals, seven words, two numerals, and
-- the rest.
pub record Line : Type 0 where
  pub pid : List ℕ
  pub name : List ℕ
  pub head : List (List ℕ)
  pub utime : List ℕ
  pub stime : List ℕ
  pub middle : List (List ℕ)
  pub vsize : List ℕ
  pub rss : List ℕ
  pub rest : List ℕ

-- The name, in parentheses.
abbrev pub comm_of : Line → List ℕ
comm_of l = b'(' ∷ l.name ++ b')' ∷ []

abbrev pub text_of : Line → List ℕ
text_of l =
    let memory = l.vsize ++ (32 ∷ (l.rss ++ 32 ∷ l.rest)) in
    let times = l.utime ++ (32 ∷ (l.stime ++ 32 ∷ line l.middle memory)) in
    l.pid ++ (32 ∷ (comm_of l ++ 32 ∷ line l.head times))

-- A numeral of a number below 2^63.
abbrev pub Fits : List ℕ → Type 0
Fits w = IsNumeral w × (number 0 w < 2 ^ 63)

pub record IsLine (l : Line) : Type 0 where
  pub pid_word : IsWord l.pid
  pub some_name : is_empty l.name ≡ false
  pub comm_word : IsWord (comm_of l)
  pub head_words : All IsWord l.head
  pub eleven : length l.head ≡ 11
  pub utime_fits : Fits l.utime
  pub stime_fits : Fits l.stime
  pub middle_words : All IsWord l.middle
  pub seven : length l.middle ≡ 7
  pub vsize_fits : Fits l.vsize
  pub rss_fits : Fits l.rss

opened-input : (w s : List ℕ) → is_empty w ≡ false → opened (some (w ++ s)) ≡ input (w ++ s)
opened-input w s h =
    ap (λ (b : Bool). record { left = w ++ s; good = if b then false else true })
      (is_empty-append w s h)

fill_lem :
    (page_size : ℕ) (overflow : ℤ → ℤ) (stat : ThreadStat) (comm : List ℕ)
    (utime stime vsize rss : ℕ)
    → is_empty comm ≡ false
    → vsize < 2 ^ 63
    → utime + stime < 2 ^ 63
    → rss * page_size < 2 ^ 63
    → fill page_size overflow stat comm (ℤ.pos utime) (ℤ.pos stime) (ℤ.pos vsize) (ℤ.pos rss)
      ≡ record {
        thread_name = trim comm;
        virtual_memory_bytes = ℤ.pos vsize;
        physical_memory_bytes = ℤ.pos (rss * page_size);
        jiffies = ℤ.pos (utime + stime);
      }
fill_lem page_size overflow stat comm utime stime vsize rss some_ small few near = ground arith

skip_so_many :
    (n : ℕ) (ws : List (List ℕ)) (rest : List ℕ)
    → length ws ≡ n
    → All IsWord ws
    → skip_words n (input (32 ∷ line ws rest)) ≡ input (32 ∷ rest)
skip_so_many n ws rest e h =
    ap (λ k. skip_words k (input (32 ∷ line ws rest))) (sym e) ∙ skip_words_lem ws rest h

int64_lem :
    (w rest : List ℕ) (old : ℤ)
    → Fits w
    → get_number to_int64 (input (32 ∷ w ++ 32 ∷ rest)) old
      ≡ (ℤ.pos (number 0 w), input (32 ∷ rest))
int64_lem w rest old (h, small) =
    get_number_lem to_int64 w rest old (ℤ.pos (number 0 w)) h (ground arith)

uint64_lem :
    (w rest : List ℕ) (old : ℤ)
    → Fits w
    → get_number to_uint64 (input (32 ∷ w ++ 32 ∷ rest)) old
      ≡ (ℤ.pos (number 0 w), input (32 ∷ rest))
uint64_lem w rest old (h, small) =
    get_number_lem to_uint64 w rest old (ℤ.pos (number 0 w)) h (ground arith)

get_thread_stat-trim :
    (page_size : ℕ) (overflow : ℤ → ℤ) (junk junk' : ℤ) (l : Line) (stat : ThreadStat)
    → IsLine l
    → number 0 l.utime + number 0 l.stime < 2 ^ 63
    → number 0 l.rss * page_size < 2 ^ 63
    → get_thread_stat page_size overflow junk junk' (some (text_of l)) stat ≡ record {
      thread_name = trim (comm_of l);
      virtual_memory_bytes = ℤ.pos (number 0 l.vsize);
      physical_memory_bytes = ℤ.pos (number 0 l.rss * page_size);
      jiffies = ℤ.pos (number 0 l.utime + number 0 l.stime);
    }
unfolding get_thread_stat
get_thread_stat-trim page_size overflow junk junk' l stat v few near =
    let after_vsize = l.rss ++ 32 ∷ l.rest in
    let after_stime = line l.middle (l.vsize ++ 32 ∷ after_vsize) in
    let after_utime = l.stime ++ 32 ∷ after_stime in
    let after_comm = line l.head (l.utime ++ 32 ∷ after_utime) in
    let after_pid = (comm_of l) ++ 32 ∷ after_comm in
    let u = ℤ.pos (number 0 l.utime) in
    let t = ℤ.pos (number 0 l.stime) in
    let m = ℤ.pos (number 0 l.vsize) in
    let r = ℤ.pos (number 0 l.rss) in
    -- What follows each extraction.
    let k6 = λ (c : List ℕ) (x y z : ℤ) (p : ℤ × Input). fill page_size overflow stat c x y z p.0 in
    let k5 =
      λ (c : List ℕ) (x y : ℤ) (p : ℤ × Input). k6 c x y p.0 (get_number to_int64 p.1 junk') in
    let k4 = λ (c : List ℕ) (x : ℤ) (p : ℤ × Input).
      k5 c x p.0 (get_number to_uint64 (skip_words 7 p.1) junk) in
    let k3 = λ (c : List ℕ) (p : ℤ × Input). k4 c p.0 (get_number to_int64 p.1 (ℤ.pos 0)) in
    let k2 = λ (p : List ℕ × Input). k3 p.0 (get_number to_int64 (skip_words 11 p.1) (ℤ.pos 0)) in
    let k1 = λ (p : List ℕ × Input). k2 (get_word p.1 []) in
    ap (λ is. k1 (get_word is [])) (opened-input l.pid (32 ∷ after_pid) v.pid_word.0)
    ∙ ap k1 (get_word_first l.pid after_pid [] v.pid_word)
    ∙ ap k2 (get_word_lem (comm_of l) after_comm [] v.comm_word)
    ∙ ap (λ is. k3 (comm_of l) (get_number to_int64 is (ℤ.pos 0)))
        (skip_so_many 11 l.head (l.utime ++ 32 ∷ after_utime) v.eleven v.head_words)
    ∙ ap (k3 (comm_of l)) (int64_lem l.utime after_utime (ℤ.pos 0) v.utime_fits)
    ∙ ap (k4 (comm_of l) u) (int64_lem l.stime after_stime (ℤ.pos 0) v.stime_fits)
    ∙ ap (λ is. k5 (comm_of l) u t (get_number to_uint64 is junk))
        (skip_so_many 7 l.middle (l.vsize ++ 32 ∷ after_vsize) v.seven v.middle_words)
    ∙ ap (k5 (comm_of l) u t) (uint64_lem l.vsize after_vsize junk v.vsize_fits)
    ∙ ap (k6 (comm_of l) u t m) (int64_lem l.rss l.rest junk' v.rss_fits)
    ∙ fill_lem page_size overflow stat (comm_of l) (number 0 l.utime) (number 0 l.stime)
        (number 0 l.vsize) (number 0 l.rss) v.comm_word.0 v.vsize_fits.1 few near

get_or-last : (name : List ℕ) (c : ℕ) → get_or (name ++ c ∷ []) (length name) 0 ≡ c
get_or-last [] c = refl
get_or-last (d ∷ name) c = get_or-last name c

take-append : (u t : List ℕ) → take (length u) (u ++ t) ≡ u
take-append [] t = refl
take-append (c ∷ u) t = ap (λ l. c ∷ l) (take-append u t)

-- A name that is not empty is what the parentheses hold.
trim_lem : (c : ℕ) (name : List ℕ) → trim (b'(' ∷ (c ∷ name) ++ b')' ∷ []) ≡ c ∷ name
unfolding trim
trim_lem c name =
    let w = b'(' ∷ c ∷ name in
    let size : length (w ++ b')' ∷ []) - 1 ≡ length w =
      omega (arith, length-append w (b')' ∷ [])) in
    let some_ : ltb 1 (length w) ≡ true = ground arith in
    let inner : length w - 1 ≡ length (c ∷ name) = omega arith in
    rw (size, get_or-last w b')', some_, inner) (take-append (c ∷ name) (b')' ∷ []))

trim-parentheses : (name : List ℕ) → is_empty name ≡ false → trim (b'(' ∷ name ++ b')' ∷ []) ≡ name
trim-parentheses [] e = absurd (ground arith)
trim-parentheses (c ∷ name) e = trim_lem c name

-- From a line whose words stand apart by single spaces, with a name in parentheses that is not empty and
-- has no space, and with numbers, a sum and a product below 2^63, the name is what the parentheses hold,
-- the jiffies are the sum of the fourteenth word and the fifteenth, the virtual memory is the
-- twenty-third, and the physical memory the twenty-fourth times the size of a page.
pub get_thread_stat_lem :
    (page_size : ℕ) (overflow : ℤ → ℤ) (junk junk' : ℤ) (l : Line) (stat : ThreadStat)
    → IsLine l
    → number 0 l.utime + number 0 l.stime < 2 ^ 63
    → number 0 l.rss * page_size < 2 ^ 63
    → get_thread_stat page_size overflow junk junk' (some (text_of l)) stat ≡ record {
      thread_name = l.name;
      virtual_memory_bytes = ℤ.pos (number 0 l.vsize);
      physical_memory_bytes = ℤ.pos (number 0 l.rss * page_size);
      jiffies = ℤ.pos (number 0 l.utime + number 0 l.stime);
    }
get_thread_stat_lem page_size overflow junk junk' l stat v few near =
    get_thread_stat-trim page_size overflow junk junk' l stat v few near
    ∙ ap
        (λ (name : List ℕ). record {
          thread_name = name;
          virtual_memory_bytes = ℤ.pos (number 0 l.vsize);
          physical_memory_bytes = ℤ.pos (number 0 l.rss * page_size);
          jiffies = ℤ.pos (number 0 l.utime + number 0 l.stime);
        })
        (trim-parentheses l.name v.some_name)
