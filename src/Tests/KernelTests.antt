-- ===== src/Tests/KernelTests.antt =====
-- The kernel module's theorems at concrete inputs.
use mse_ma_csel.Common.{◌-◌, ◌*◌, ◌/◌, ◌≤◌, ◌≡◌, ◌≢◌, ◌⊎◌, refl, none, some, List, [], ◌∷◌, arith}
use mse_ma_csel.Common.Int.{pos}
use mse_ma_csel.Kernel.State.{boot, gpio_free, kthread_stop, blink_task, null}
use mse_ma_csel.Kernel.Temp.{line, to_temperature, temp_init}
use mse_ma_csel.Kernel.Temp.Formula.{to_temperature_exact, to_temperature_wraps}
use mse_ma_csel.Kernel.Blink.{blink_init, blink_exit}
use mse_ma_csel.Kernel.Sysfs.{temp_regulator_sysfs_init}
use mse_ma_csel.Kernel.Callbacks.{cb_set_mode, cb_set_period}
use mse_ma_csel.Kernel.Regulator.{
  regulator_exit, auto_period, apply_auto, start_thread, regulator_init, regulator_round,
  regulator_thread_fn,
}
use mse_ma_csel.Kernel.Regulator.Invariant.{IsRegulated}
use mse_ma_csel.Kernel.Regulator.Behaviour.{regulator_round_auto, regulator_thread_fn_ends}
use mse_ma_csel.Kernel.Regulator.Interleaving.{
  idle, measured, set_mode, apply, Step, Reach, here, next, Reach-IsRegulated,
  stale_round_overrides,
}
use mse_ma_csel.Kernel.Module.{temp_regulator_init, temp_regulator_exit}
use mse_ma_csel.Kernel.Entries.{
  Entry, read_temperature, round, write_mode, write_period_set, enter_all,
}
use mse_ma_csel.Kernel.Monitor.{nothing, follow, held}
use mse_ma_csel.Kernel.Monitor.Lifecycle.{IsLoaded, mapped, temp_regulator_init_all_or_nothing}
use mse_ma_csel.Kernel.Monitor.BlinkFailure.{dark, busy_pin_breaks_exit}
use mse_ma_csel.Kernel.Session.{session_clean, session-IsRegulated}
use mse_ma_csel.Tests.Data.{
  granting, busy, granting-HasAnswers, busy-HasAnswers, granting-HasLed, plain, plain-IsFaithful,
  manual_kernel, auto_kernel, auto-IsRegulated,
}

-- Both formulas, at the value where the formula changes, and at the first value below zero.
to_temperature_values :
    (to_temperature 0x500 ≡ 73144)
    × (to_temperature 0x501 ≡ 70433)
    × (to_temperature 1872 ≡ 45)
    × (to_temperature 1873 ≡ 4294967222)
unfolding to_temperature line
to_temperature_values = (refl, refl, refl, refl)

-- To manual mode, 300 ms, back to automatic mode, and two rounds of the thread.
abbrev uses : List Entry
uses =
    write_mode (0 ∷ []) 1
    ∷ write_period_set (300 ∷ []) 1
    ∷ read_temperature
    ∷ write_mode (1 ∷ []) 1
    ∷ round
    ∷ round
    ∷ []

granting_loads : (temp_regulator_init granting boot).0 ≡ pos 0
unfolding temp_regulator_init temp_init blink_init regulator_init start_thread
    temp_regulator_sysfs_init
granting_loads = refl

busy_loads : (temp_regulator_init busy boot).0 ≡ pos 0
unfolding temp_regulator_init temp_init blink_init regulator_init start_thread
    temp_regulator_sysfs_init
busy_loads = refl

session_clean_example :
    held
      (temp_regulator_exit
        (enter_all granting plain uses (temp_regulator_init granting boot).1)).1.calls
    ≡ some nothing
session_clean_example =
    session_clean granting plain uses granting-HasAnswers granting-HasLed granting_loads

session-IsRegulated_example :
    IsRegulated (enter_all granting plain uses (temp_regulator_init granting boot).1)
session-IsRegulated_example =
    session-IsRegulated granting plain plain-IsFaithful uses granting_loads

init_all_or_nothing_example :
    let (ret, k) = temp_regulator_init granting boot in
    ((ret ≡ pos 0) × IsLoaded k.temp_res k) ⊎ ((ret ≢ pos 0) × (held k.calls ≡ some nothing))
init_all_or_nothing_example =
    temp_regulator_init_all_or_nothing granting granting-HasAnswers granting-HasLed

busy_pin_breaks_exit_example :
    let k = (temp_regulator_init busy boot).1 in
    let r = (regulator_exit k).1 in
    let res = (temp_init busy boot).1.temp_res in
    (held k.calls ≡ some (dark res))
    × (held r.calls ≡ some (mapped res))
    × ((blink_exit r).1.calls ≡ gpio_free ∷ kthread_stop blink_task null ∷ r.calls)
    × (follow (kthread_stop blink_task null) (mapped res) ≡ none)
    × (follow gpio_free (mapped res) ≡ none)
    × (held (temp_regulator_exit k).1.calls ≡ none)
busy_pin_breaks_exit_example =
    busy_pin_breaks_exit busy busy-HasAnswers (λ cs e. ground arith) busy_loads

-- A handler sets manual mode, and then the thread applies the temperature that it has measured.
interleaved :
    Reach granting auto_kernel
      (measured 30000)
      (apply_auto 30000 (cb_set_mode (pos 0) auto_kernel).1).1
      idle
interleaved = next (next here (set_mode (pos 0))) (apply 30000)

Reach-IsRegulated_example : IsRegulated (apply_auto 30000 (cb_set_mode (pos 0) auto_kernel).1).1
Reach-IsRegulated_example = Reach-IsRegulated auto-IsRegulated interleaved

stale_round_overrides_example :
    let manual = (cb_set_period 700 (cb_set_mode (pos 0) auto_kernel).1).1 in
    let after = (apply_auto 30000 manual).1 in
    Reach granting auto_kernel (measured 30000) manual (measured 30000)
    × (manual.current_mode ≡ pos 0)
    × (manual.current_period ≡ 700)
    × Step granting manual (measured 30000) after idle
    × (after.current_mode ≡ pos 0)
    × (after.current_period ≡ auto_period (30000 / 1000))
stale_round_overrides_example =
    stale_round_overrides granting 30000 700 auto_kernel (omega arith) (omega arith)

regulator_round_auto_example :
    let after = (regulator_round granting auto_kernel).1 in
    (after.current_period ≡ auto_period (to_temperature 1300 / 1000))
    × (after.blink_period_ms ≡ pos after.current_period)
    × (after.current_mode ≡ pos 1)
regulator_round_auto_example =
    regulator_round_auto granting auto_kernel 1300 auto-IsRegulated refl refl (λ cs. refl)

regulator_thread_fn_ends_example : (regulator_thread_fn granting 41 manual_kernel).0 ≡ some (pos 0)
regulator_thread_fn_ends_example =
    regulator_thread_fn_ends granting 40 41 manual_kernel (λ cs h. ground arith) (omega arith)
      (omega arith)

to_temperature_exact_example : to_temperature 1600 ≡ 223000 - 1191 * 1600 / 10
to_temperature_exact_example = to_temperature_exact 1600 (omega arith)

to_temperature_wraps_example : 4000000000 ≤ to_temperature 1900
to_temperature_wraps_example = to_temperature_wraps 1900 (omega arith) (omega arith)
