-- ===== src/Container/RingBuffer/Tests.antt =====
-- Runs of the ring buffer, and its theorems at concrete rings.
use cpp_cores.Base.{◌≡◌, refl, true, [], ◌∷◌, arith}
use cpp_cores.Queue.Spsc.Sequential.{bounded_push}
use cpp_cores.Container.RingBuffer.{RingBuffer, new, push_back, next, front, empty}
use cpp_cores.Container.RingBuffer.Queue.{IsValid, contents, push_back_refines}

-- 7, then 8 across the end of the array.
abbrev wrapped : RingBuffer
wrapped = record { buffer = 8 ∷ 0 ∷ 0 ∷ 7 ∷ []; reader = 3; writer = 1; capacity = 4 }

wrapped-IsValid : IsValid wrapped
wrapped-IsValid = omega arith

new-IsValid : IsValid (new 4)
unfolding new
new-IsValid = omega arith

pushed :
    push_back wrapped 9
    ≡ (true, record { buffer = 8 ∷ 9 ∷ 0 ∷ 7 ∷ []; reader = 3; writer = 2; capacity = 4 })
unfolding push_back next
pushed = refl

fresh_is_vacant : empty (new 4) ≡ true
unfolding empty new
fresh_is_vacant = refl

oldest_element : front wrapped ≡ 7
unfolding front
oldest_element = refl

push_back_refines_example :
    let (done, q') = push_back wrapped 9 in
    ((done, contents q') ≡ bounded_push 3 (7 ∷ 8 ∷ []) 9) × IsValid q'
push_back_refines_example = push_back_refines wrapped wrapped-IsValid 9
