-- ===== src/Tests/Lines.antt =====
-- A line of the log at a concrete input.
use mini_rtos_sim.Base.{◌-◌, ◌^◌, ◌≡◌, refl, some, [], ◌∷◌, arith}
use mini_rtos_sim.Timer.{Timer, timer_init, timer_now}
use mini_rtos_sim.Log.{uart_log}
use mini_rtos_sim.Log.Stamp.{read_line, read_line-uart_log}

-- The last tick before the clock wraps.
abbrev late : Timer
late = record timer_init { kernel_tick = 2 ^ 32 - 1 }

late_tick : timer_now late ≡ 4_294_967_295
unfolding timer_now
late_tick = refl

read_line-uart_log_example :
    read_line (uart_log (b'H' ∷ b'i' ∷ []) late) ≡ some (timer_now late, b'H' ∷ b'i' ∷ [])
read_line-uart_log_example = read_line-uart_log (b'H' ∷ b'i' ∷ []) late (omega (arith, late_tick))
