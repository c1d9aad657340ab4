-- ===== src/File/Stat/Tests.antt =====
-- Runs on lines of the kernel, and the theorems at concrete ones.
use cpp_cores.Base.{◌+◌, ◌*◌, ◌^◌, ◌<◌, ◌≡◌, refl, List, [], ◌∷◌, some, true, codes, arith}
use cpp_cores.Base.Int.{ℤ}
use cpp_cores.File.Stat.{
  get_thread_stat, get_word, get_number, skip_words, skip_space, span, is_space, is_digit, number,
  trim, no_stat, Entry,
}
use cpp_cores.File.Stat.Fields.{Line, IsLine, text_of, get_thread_stat_lem}

abbrev sample : Line
sample = record {
  pid = codes "7";
  name = codes "sh";
  head =
      codes "S"
      ∷ codes "1"
      ∷ codes "1"
      ∷ codes "1"
      ∷ codes "0"
      ∷ codes "-1"
      ∷ codes "0"
      ∷ codes "0"
      ∷ codes "0"
      ∷ codes "0"
      ∷ codes "9"
      ∷ [];
  utime = codes "12";
  stime = codes "30";
  middle = codes "0" ∷ codes "0" ∷ codes "20" ∷ codes "0" ∷ codes "1" ∷ codes "0" ∷ codes "55" ∷ [];
  vsize = codes "8192";
  rss = codes "2";
  rest = codes "0 0";
}

sample-IsLine : IsLine sample
unfolding number is_space is_digit
sample-IsLine = ground arith

sample_few : number 0 sample.utime + number 0 sample.stime < 2 ^ 63
unfolding number
sample_few = omega arith

sample_near : number 0 sample.rss * 4096 < 2 ^ 63
unfolding number
sample_near = omega arith

-- A name with a space moves every field by one: the jiffies are the words before.
spaced :
    (get_thread_stat 1
      (λ x. x)
      (ℤ.pos 0)
      (ℤ.pos 0)
      (some (codes "7 (a b) S 1 1 1 0 -1 0 0 0 0 9 12 30 0 0 20 0 1 0 55 8192 2 0"))
      no_stat).jiffies
    ≡ ℤ.pos 21
unfolding get_thread_stat get_word get_number skip_words skip_space span is_space is_digit number
    trim
spaced = refl

get_thread_stat_lem_example :
    get_thread_stat 4096 (λ x. x) (ℤ.pos 0) (ℤ.pos 0) (some (text_of sample)) no_stat ≡ record {
      thread_name = codes "sh";
      virtual_memory_bytes = ℤ.pos (number 0 (codes "8192"));
      physical_memory_bytes = ℤ.pos (number 0 (codes "2") * 4096);
      jiffies = ℤ.pos (number 0 (codes "12") + number 0 (codes "30"));
    }
get_thread_stat_lem_example =
    get_thread_stat_lem 4096 (λ x. x) (ℤ.pos 0) (ℤ.pos 0) sample no_stat sample-IsLine sample_few
      sample_near

abbrev threads : List Entry
threads =
    record { name = codes "."; is_dir = true; stat = some (text_of sample) }
    ∷ record { name = codes "7"; is_dir = true; stat = some (text_of sample) }
    ∷ record { name = codes "8"; is_dir = true; stat = some (text_of sample) }
    ∷ []
