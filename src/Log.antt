-- ===== src/Log.antt =====
-- src/rtos.c, `uart_log`, and src/scheduler.c, `state_name`: the text of the log, as ASCII codes.
-- The message that `vprintf` makes of the format is a parameter.
pub mod Stamp
use mini_rtos_sim.Base.{
  ltb, if◌then◌else◌, ℤ, pos, negsuc, ℕ, zero, suc, ◌+◌, ◌-◌, ◌/◌, ◌%◌, ◌^◌, List, [], ◌∷◌, ◌++◌,
}
use Prim.Native.String.{String}
use mini_rtos_sim.Task.{TaskState, ready, running, blocked, suspended}
use mini_rtos_sim.Timer.{Timer, timer_now}

-- The decimal digits of `n`, in front of `rest`; the fuel is the number of digits at most.
pub decimal : ℕ → ℕ → List ℕ → List ℕ
decimal zero n rest = rest
decimal (suc fuel) n rest =
    let longer = decimal fuel (n / 10) ((b'0' + n % 10) ∷ rest) in
    if ltb n 10 then (b'0' + n) ∷ rest else longer

-- `%02d` in front of `rest`. An `int` has at most ten digits.
pub print_int : ℤ → List ℕ → List ℕ
unfolding decimal
print_int (pos n) rest = if ltb n 10 then b'0' ∷ decimal 10 n rest else decimal 10 n rest
print_int (negsuc n) rest = b'-' ∷ decimal 10 (suc n) rest

-- The conversion of a `uint32_t` to `int`.
abbrev pub to_int : ℕ → ℤ
to_int u = if ltb u (2 ^ 31) then pos u else negsuc (2 ^ 32 - u - 1)

-- What a call prints.
unfoldable pub uart_log : List ℕ → Timer → List ℕ
unfolding print_int
uart_log message timer =
    let minutes = to_int (timer_now timer / 60) in
    let seconds = to_int (timer_now timer % 60) in
    b'[' ∷ print_int minutes (b':' ∷ print_int seconds (b']' ∷ b' ' ∷ (message ++ (10 ∷ []))))

-- The cases of the enumeration; no value of it takes the default, "UNKNOWN".
unfoldable pub state_name : TaskState → String
state_name ready = "READY"
state_name running = "RUNNING"
state_name blocked = "BLOCKED"
state_name suspended = "SUSPENDED"
