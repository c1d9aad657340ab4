-- ===== src/Text/Split/Tests.antt =====
-- Runs of `split`, and its theorems at a concrete string.
use cpp_cores.Base.{◌≡◌, refl, [], ◌∷◌, codes}
use cpp_cores.Text.Split.{split, split_any, split_at, split_loop, one_of}
use cpp_cores.Text.Split.Join.{join, join-split}

three_pieces : split (codes "a,b,,c") b',' 3 ≡ codes "a" ∷ codes "b" ∷ codes ",c" ∷ []
unfolding split split_at split_loop
three_pieces = refl

-- A bound of one is no bound.
bound_of_one : split (codes "a,b,c") b',' 1 ≡ codes "a" ∷ codes "b" ∷ codes "c" ∷ []
unfolding split split_at split_loop
bound_of_one = refl

any_of_two : split_any (codes "a;b,c") (codes ",;") 0 ≡ codes "a" ∷ codes "b" ∷ codes "c" ∷ []
unfolding split_any split_at split_loop one_of
any_of_two = refl

join-split_example : join b',' (split (codes "a,b,,c") b',' 3) ≡ codes "a,b,,c"
join-split_example = join-split (codes "a,b,,c") b',' 3
