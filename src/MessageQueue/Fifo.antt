-- ===== src/MessageQueue/Fifo.antt =====
-- What a message queue promises: a first-in first-out list of at most ten values, and what a
-- client sees of a sequence of calls.
use mini_rtos_sim.Base.{
  ◌==◌, if◌then◌else◌, ℤ, length, ℕ, Bool, true, false, Option, none, some, List, [], ◌∷◌, ◌++◌,
}
use mini_rtos_sim.Task.{queue_size}

abbrev pub Fifo : Type 0
Fifo = List ℤ

-- A call, with the index of the task that makes it.
pub data Call : Type 0 where
  send : ℕ → ℤ → Call
  receive : ℕ → Call

abbrev pub caller : Call → ℕ
caller (send i value) = i
caller (receive i) = i

pub data Reply : Type 0 where
  sent : Bool → Reply
  received : Option ℤ → Reply

unfoldable pub apply : Call → Fifo → Reply × Fifo
apply (send i value) xs =
    if length xs == queue_size then (sent false, xs) else (sent true, xs ++ (value ∷ []))
apply (receive i) [] = (received none, [])
apply (receive i) (x ∷ xs) = (received (some x), xs)

unfoldable pub run : List Call → Fifo → List Reply × Fifo
run [] xs = ([], xs)
run (c ∷ cs) xs = let (r, xs') = apply c xs in let (rs, xs'') = run cs xs' in (r ∷ rs, xs'')
