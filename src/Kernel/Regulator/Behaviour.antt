-- ===== src/Kernel/Regulator/Behaviour.antt =====
-- What one round of the regulator's thread does in each mode, and that the thread ends.
use mse_ma_csel.Common.{
  ℕ, zero, suc, ◌+◌, ◌/◌, ◌≤◌, ◌<◌, ◌≡◌, true, false, some, List, ◌∷◌, length, Bool-cases, inl, inr,
  arith,
}
use native.Mathlib.Decide.{dec_lt}
use mse_ma_csel.Common.Int.{pos}
use mse_ma_csel.Kernel.State.{
  Linux, Kernel, Call, temp_lock, regulator_lock, regulator_task, mutex_lock, mutex_unlock, msleep,
  kthread_should_stop,
}
use mse_ma_csel.Kernel.Temp.{to_temperature, read_temp}
use mse_ma_csel.Kernel.Callbacks.{regulator_get_temperature}
use mse_ma_csel.Kernel.Regulator.{
  auto_period, apply_auto, read_mode, process_auto_mode, regulator_round, regulator_thread_fn,
}
use mse_ma_csel.Kernel.Regulator.Invariant.{IsRegulated}

auto_period_small : (t : ℕ) → auto_period t < 501
unfolding auto_period
auto_period_small t = ground arith

-- The period never grows with the temperature.
auto_period_antitone : (s t : ℕ) → s ≤ t → auto_period t ≤ auto_period s
unfolding auto_period
auto_period_antitone s t h = ground arith

-- In automatic mode, with the register mapped and showing one value, a round from a state in
-- order sets the period, and the LED's, to the one for the temperature of that value, whatever
-- they were, and leaves the mode alone.
pub regulator_round_auto :
    (linux : Linux) (k : Kernel) (raw : ℕ)
    → IsRegulated k
    → k.current_mode ≡ pos 1
    → k.temp_reg ≡ true
    → ((cs : List Call) → linux.ioread32 cs ≡ raw)
    → let after = (regulator_round linux k).1 in
      (after.current_period ≡ auto_period (to_temperature raw / 1000))
      × (after.blink_period_ms ≡ pos after.current_period)
      × (after.current_mode ≡ pos 1)
unfolding regulator_round read_mode process_auto_mode regulator_get_temperature read_temp apply_auto
regulator_round_auto linux k raw h auto mapped reads =
    let before =
      mutex_lock temp_lock ∷ mutex_unlock regulator_lock ∷ mutex_lock regulator_lock ∷ k.calls in
    ground (arith, reads before, auto_period_small (to_temperature raw / 1000))

-- In manual mode a round changes neither period, reads no sensor, and only sleeps for a second.
pub regulator_round_manual :
    (linux : Linux) (k : Kernel)
    → k.current_mode ≡ pos 0
    → regulator_round linux k ≡ (
      tt,
      record k {
        calls = msleep 1000 ∷ mutex_unlock regulator_lock ∷ mutex_lock regulator_lock ∷ k.calls;
      },
    )
unfolding regulator_round read_mode
regulator_round_manual linux k manual = rw manual

regulator_round_calls :
    (linux : Linux) (k : Kernel) → length k.calls ≤ length (regulator_round linux k).1.calls
unfolding regulator_round read_mode process_auto_mode regulator_get_temperature read_temp apply_auto
regulator_round_calls linux k = ground arith

-- If the kernel always asks the thread to stop once `n` calls have been made, then fuel that is
-- positive and, with the calls made before the thread starts, more than `n` is enough for the
-- thread to return 0.
pub regulator_thread_fn_ends :
    (linux : Linux) (n fuel : ℕ) (k : Kernel)
    → ((cs : List Call) → n ≤ length cs → linux.kthread_should_stop regulator_task cs ≡ true)
    → n < fuel + length k.calls
    → 0 < fuel
    → (regulator_thread_fn linux fuel k).0 ≡ some (pos 0)
unfolding regulator_thread_fn
regulator_thread_fn_ends linux n zero k stops enough more = absurd (omega arith)
regulator_thread_fn_ends linux n (suc fuel) k stops enough more =
    elim (Bool-cases (linux.kthread_should_stop regulator_task k.calls)) [
      | inl stop ↦ rw stop
      | inr go ↦ rw go (
          let asked : Kernel = record k {
            calls = kthread_should_stop regulator_task false ∷ k.calls;
          } in
          let grows = regulator_round_calls linux asked in
          let early : length k.calls < n = elim (dec_lt (length k.calls) n) [
            | yes p ↦ p
            | no q ↦ cc (stops k.calls (omega arith))
          ] in
          regulator_thread_fn_ends linux n fuel (regulator_round linux asked).1 stops (omega arith)
            (omega arith))
    ]
