-- ===== src/Tick/Tests.antt =====
-- Runs of kernel/tick.c, and its theorems at concrete inputs: a clock of 10 MHz.
use nuvix.Prelude.{ℕ, ◌+◌, ◌-◌, ◌*◌, ◌^◌, ◌≤◌, ◌<◌, ◌≡◌, refl, arith}
use nuvix.Errno.{ok, err, einval, eoverflow}
use nuvix.Prelude.Int.{pos, negsuc}
use nuvix.Tick.{
  tick_init, tick_handle, time_ticks_from_ns, time_ns_from_ticks, time_ticks_from_timespec,
  time_ticks_from_ms, time_deadline_from_ns,
}
use nuvix.Tick.Convert.{IsCeil, time_ticks_from_ns-IsCeil, ns-ticks_back}
use nuvix.Tick.Period.{tick_handle-next}

abbrev frequency : ℕ
frequency = 10000000

init_ok :
    (tick_init (ok frequency) record { timebase_frequency = 0; tick_period = 0 }).1
    ≡ record { timebase_frequency = frequency; tick_period = 10000 }
unfolding tick_init
init_ok = refl

init_slow : (tick_init (ok 999) record { timebase_frequency = 0; tick_period = 0 }).0 ≡ err einval
unfolding tick_init
init_slow = refl

ms : time_ticks_from_ms frequency 3 ≡ 30000
unfolding time_ticks_from_ms
ms = refl

negative_time :
    time_ticks_from_timespec frequency record { tv_sec = negsuc 0; tv_nsec = pos 0 } ≡ err einval
unfolding time_ticks_from_timespec
negative_time = refl

-- 1.00000015 s are 10000001.5 ticks.
ticks : time_ticks_from_ns frequency 1000000150 ≡ ok 10000002
unfolding time_ticks_from_ns
ticks = refl

back : time_ns_from_ticks frequency 10000002 ≡ ok 1000000200
unfolding time_ns_from_ticks
back = refl

too_long : time_ns_from_ticks 1000 (2 ^ 63) ≡ err eoverflow
unfolding time_ns_from_ticks
too_long = refl

deadline_wraps : time_deadline_from_ns frequency (2 ^ 64 - 1) 100 ≡ err eoverflow
unfolding time_deadline_from_ns
deadline_wraps = refl

time_ticks_from_ns-IsCeil_example :
    IsCeil frequency 1000000150 (time_ticks_from_ns frequency 1000000150)
time_ticks_from_ns-IsCeil_example =
    time_ticks_from_ns-IsCeil frequency 1000000150 (omega arith) (omega arith)

ns-ticks_back_example : 1000000150 ≤ 1000000200
ns-ticks_back_example =
    ns-ticks_back frequency 1000000150 10000002 1000000200 (omega arith) (omega arith) (omega arith)
      ticks back

-- Two events were missed.
tick_handle-next_example :
    (75000 < tick_handle 10000 75000 50005)
    × (75000 < 50005 → tick_handle 10000 75000 50005 ≡ 50005)
    × (50005 ≤ 75000
        → ((k : ℕ) × (tick_handle 10000 75000 50005 ≡ 50005 + k * 10000))
          × (tick_handle 10000 75000 50005 ≤ 75000 + 10000))
tick_handle-next_example = tick_handle-next 10000 75000 50005 (omega arith) (omega arith)
