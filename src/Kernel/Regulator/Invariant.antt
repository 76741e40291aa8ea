-- ===== src/Kernel/Regulator/Invariant.antt =====
-- What holds of the regulator between two critical sections.
use mse_ma_csel.Common.{ℕ, zero, suc, ◌^◌, ◌<◌, ◌≡◌, ◌⊎◌, inl, inr, false, ◌∷◌, Bool-cases, arith}
use mse_ma_csel.Common.Int.{ℤ, pos}
use mse_ma_csel.Common.Words.{i32}
use mse_ma_csel.Kernel.State.{Linux, Kernel, Call, regulator_task, module_cbs}
use mse_ma_csel.Kernel.Temp.{read_temp}
use mse_ma_csel.Kernel.Callbacks.{cb_set_mode, cb_set_period, regulator_get_temperature}
use mse_ma_csel.Kernel.Regulator.{
  auto_period, apply_auto, read_mode, process_auto_mode, regulator_round, regulator_thread_fn,
}

-- The mode is manual or automatic, the period is positive, fits its type and is the one that the
-- LED blinks with, and the regulator has its functions and has called no NULL pointer.
pub record IsRegulated (k : Kernel) : Type 0 where
  pub mode_valid : (k.current_mode ≡ pos 0) ⊎ (k.current_mode ≡ pos 1)
  pub period_positive : 0 < k.current_period
  pub period_word : k.current_period < 2 ^ 32
  pub led_follows : k.blink_period_ms ≡ i32 k.current_period
  pub has_functions : k.regulator_cbs ≡ module_cbs
  pub no_fault : k.fault ≡ false

pub cb_set_mode-IsRegulated : (m : ℤ) (k : Kernel) → IsRegulated k → IsRegulated (cb_set_mode m k).1
unfolding cb_set_mode
cb_set_mode-IsRegulated m k h = ground arith

pub cb_set_period-IsRegulated :
    (p : ℕ) (k : Kernel) → p < 2 ^ 32 → IsRegulated k → IsRegulated (cb_set_period p k).1
unfolding cb_set_period
cb_set_period-IsRegulated p k w h = ground arith

pub apply_auto-IsRegulated : (t : ℕ) (k : Kernel) → IsRegulated k → IsRegulated (apply_auto t k).1
unfolding apply_auto auto_period
apply_auto-IsRegulated t k h = ground arith

-- Every round of the regulator's thread keeps the mode valid, the period positive and the LED's.
pub regulator_round-IsRegulated :
    (linux : Linux) (k : Kernel) → IsRegulated k → IsRegulated (regulator_round linux k).1
unfolding regulator_round read_mode process_auto_mode regulator_get_temperature read_temp apply_auto
    auto_period
regulator_round-IsRegulated linux k h = ground arith

-- The thread keeps the invariant for as long as it runs.
pub regulator_thread_fn-IsRegulated :
    (linux : Linux) (fuel : ℕ) (k : Kernel)
    → IsRegulated k
    → IsRegulated (regulator_thread_fn linux fuel k).1
unfolding regulator_thread_fn
regulator_thread_fn-IsRegulated linux zero k h = h
regulator_thread_fn-IsRegulated linux (suc fuel) k h =
    elim (Bool-cases (linux.kthread_should_stop regulator_task k.calls)) [
      | inl stop ↦ rw stop (ground arith)
      | inr go ↦ rw go (
          let asked : Kernel = record k {
            calls = Call.kthread_should_stop regulator_task false ∷ k.calls;
          } in
          let before : IsRegulated asked = ground arith in
          regulator_thread_fn-IsRegulated linux fuel (regulator_round linux asked).1
            (regulator_round-IsRegulated linux asked before))
    ]
