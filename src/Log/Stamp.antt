-- ===== src/Log/Stamp.antt =====
-- The lines of the log can be read back.
use mini_rtos_sim.Base.{
  ltb, leb, ◌==◌, if◌then◌else◌, Bool-cases, pos, ℕ, zero, suc, ◌+◌, ◌-◌, ◌*◌, ◌/◌, ◌%◌, ◌^◌, ◌<◌,
  ◌≡◌, refl, ap, ap₂, ◌∙◌, inl, inr, Bool, true, false, ◌&&◌, Option, none, some, List, [], ◌∷◌,
  ◌++◌, arith,
}
use text.Mathlib.Text.{◌==◌ as ◌=~◌}
use Prim.Native.String.{String}
use mini_rtos_sim.Task.{TaskState, ready, running, blocked, suspended}
use mini_rtos_sim.Timer.{Timer, timer_now}
use mini_rtos_sim.Log.{decimal, print_int, to_int, uart_log, state_name}

-- A reader of numbers: the digits up to the first other code, after the number `n`.
pub read_number : ℕ → List ℕ → ℕ × List ℕ
read_number n [] = (n, [])
read_number n (c ∷ cs) =
    let more = read_number (n * 10 + (c - b'0')) cs in
    if leb b'0' c && leb c b'9' then more else (n, c ∷ cs)

abbrev ten : ℕ → ℕ
ten zero = 1
ten (suc n) = 10 * ten n

read_digit :
    (n d : ℕ) (rest : List ℕ)
    → d < 10
    → read_number n ((b'0' + d) ∷ rest) ≡ read_number (n * 10 + d) rest
unfolding read_number
read_digit n d rest h =
    let low : leb b'0' (b'0' + d) ≡ true = ground arith in
    let high : leb (b'0' + d) b'9' ≡ true = ground arith in
    let digit : b'0' + d - b'0' ≡ d = omega arith in rw (low, high, digit)

read_number-decimal :
    (fuel n : ℕ) (rest : List ℕ)
    → n < ten (suc fuel)
    → read_number 0 (decimal (suc fuel) n rest) ≡ read_number n rest
unfolding decimal
read_number-decimal zero n rest h =
    let one : ltb n 10 ≡ true = ground arith in
    rw one (read_digit 0 n rest (omega arith) ∙ ap (λ m. read_number m rest) (omega arith))
read_number-decimal (suc fuel) n rest h = elim (Bool-cases (ltb n 10)) [
  | inl one ↦
      rw one (read_digit 0 n rest (ground arith) ∙ ap (λ m. read_number m rest) (omega arith))
  | inr longer ↦
      let whole : n / 10 * 10 + n % 10 ≡ n = omega arith in
      rw longer (
        read_number-decimal fuel (n / 10) ((b'0' + n % 10) ∷ rest) (omega arith)
        ∙ read_digit (n / 10) (n % 10) rest (omega arith)
        ∙ ap (λ m. read_number m rest) whole)
]

-- A leading zero does not matter.
read_padded :
    (padded : Bool) (l : List ℕ) {r : ℕ × List ℕ}
    → read_number 0 l ≡ r
    → read_number 0 (if padded then b'0' ∷ l else l) ≡ r
read_padded false l e = e
read_padded true l e =
    let none_yet : 0 * 10 + 0 ≡ 0 = omega arith in
    read_digit 0 0 l (omega arith) ∙ ap (λ m. read_number m l) none_yet ∙ e

read_stops :
    (n c : ℕ) (rest : List ℕ)
    → leb b'0' c && leb c b'9' ≡ false
    → read_number n (c ∷ rest) ≡ (n, c ∷ rest)
unfolding read_number
read_stops n c rest other = rw other refl

read_number-print_int :
    (n : ℕ) (c : ℕ) (rest : List ℕ)
    → n < 2 ^ 31
    → leb b'0' c && leb c b'9' ≡ false
    → read_number 0 (print_int (pos n) (c ∷ rest)) ≡ (n, c ∷ rest)
unfolding print_int
read_number-print_int n c rest h other =
    read_padded (ltb n 10) (decimal 10 n (c ∷ rest))
      (read_number-decimal 9 n (c ∷ rest) (omega arith) ∙ read_stops n c rest other)

-- A line without its last code, the end of the line.
abbrev without_last : List ℕ → List ℕ
without_last [] = []
without_last (c ∷ []) = []
without_last (c ∷ d ∷ cs) = c ∷ without_last (d ∷ cs)

without_last-append : (cs : List ℕ) (d : ℕ) → without_last (cs ++ (d ∷ [])) ≡ cs
without_last-append [] d = refl
without_last-append (c ∷ []) d = refl
without_last-append (c ∷ e ∷ cs) d = ap (λ l. c ∷ l) (without_last-append (e ∷ cs) d)

-- A reader of lines: the tick and the message.
abbrev after_seconds : ℕ → ℕ × List ℕ → Option (ℕ × List ℕ)
after_seconds minutes (seconds, c ∷ d ∷ message) =
    if c == b']' && d == b' ' then some (60 * minutes + seconds, without_last message) else none
after_seconds minutes (seconds, _) = none

abbrev after_minutes : ℕ × List ℕ → Option (ℕ × List ℕ)
after_minutes (minutes, c ∷ rest) =
    if c == b':' then after_seconds minutes (read_number 0 rest) else none
after_minutes (minutes, []) = none

abbrev pub read_line : List ℕ → Option (ℕ × List ℕ)
read_line (c ∷ rest) = if c == b'[' then after_minutes (read_number 0 rest) else none
read_line [] = none

-- A line that `uart_log` prints can be read back: for every value of the 32-bit clock it gives the
-- tick, as minutes and seconds, and the message. So no two ticks have the same stamp, and the
-- conversions to `int` lose nothing.
pub read_line-uart_log :
    (message : List ℕ) (timer : Timer)
    → timer_now timer < 2 ^ 32
    → read_line (uart_log message timer) ≡ some (timer_now timer, message)
unfolding uart_log
read_line-uart_log message timer h =
    let now = timer_now timer in
    let tail = b' ' ∷ (message ++ (10 ∷ [])) in
    let minutes : to_int (now / 60) ≡ pos (now / 60) = ground arith in
    let seconds : to_int (now % 60) ≡ pos (now % 60) = ground arith in
    let whole : 60 * (now / 60) + now % 60 ≡ now = omega arith in
    rw (minutes, seconds)
      (ap after_minutes (
          read_number-print_int (now / 60) b':' (print_int (pos (now % 60)) (b']' ∷ tail))
            (omega arith) refl)
        ∙ ap (after_seconds (now / 60))
            (read_number-print_int (now % 60) b']' tail (omega arith) refl)
        ∙ ap₂ (λ n m. some (n, m)) whole (without_last-append message 10))

-- The states as the log names them.
abbrev pub state_of : String → Option TaskState
state_of name =
    if name =~ "READY"
    then some ready
    else if name =~ "RUNNING"
    then some running
    else if name =~ "BLOCKED"
    then some blocked
    else if name =~ "SUSPENDED"
    then some suspended
    else none

-- The name of a state tells the state: `state_name` has a reader.
pub state_of-state_name : (s : TaskState) → state_of (state_name s) ≡ some s
unfolding state_name
state_of-state_name ready = refl
state_of-state_name running = refl
state_of-state_name blocked = refl
state_of-state_name suspended = refl
