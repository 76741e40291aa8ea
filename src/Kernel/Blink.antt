-- ===== src/Kernel/Blink.antt =====
-- src/06-mini-project/kernel/blink/blink.c: the LED that blinks.
use mse_ma_csel.Common.{
  ℕ, zero, suc, ◌/◌, Bool, true, false, not, Option, none, some, if◌then◌else◌, ◌>>=◌, ◌>>◌, pure,
  gets, modify, skip,
}
use mse_ma_csel.Common.Int.{ℤ, pos, negsuc, is_zero}
use mse_ma_csel.Common.Words.{u32}
use mse_ma_csel.Kernel.State.{
  Linux, KernelProc, Call, blink_task, gpio_free, gpio_set_value, kthread_stop, msleep, is_err,
  emit, ask,
}

-- `DEFAULT_PERIOD_MS`
abbrev pub default_period_ms : ℕ
default_period_ms = 1000

-- `period >> 1` of an `int`, rounded down.
abbrev pub half : ℤ → ℤ
half (pos n) = pos (n / 2)
half (negsuc n) = negsuc (n / 2)

unfoldable pub adjust_period : ℤ → KernelProc (Unit {0})
adjust_period new_period_ms = modify (λ k. record k { blink_period_ms = new_period_ms })

module _ (linux : Linux) where
  unfoldable pub blink_init : KernelProc (Unit {0})
  blink_init = do
    modify (λ k. record k { blink_period_ms = pos default_period_ms })
    ret ← ask linux.gpio_request Call.gpio_request
    if is_zero ret
        then (do
          ret ← ask linux.gpio_direction_output Call.gpio_direction_output
          if is_zero ret
              then (do
                thread ← ask (linux.kthread_run blink_task) (Call.kthread_run blink_task)
                modify (λ k. record k { blink_thread = thread })
                if is_err thread then emit gpio_free else skip)
              else emit gpio_free)
        else skip

unfoldable pub blink_exit : KernelProc (Unit {0})
blink_exit = do
  thread ← gets (λ k. k.blink_thread)
  emit (kthread_stop blink_task thread)
  emit gpio_free

-- One round of the loop of `thread_blinkThread`, at the value of `state`.
unfoldable pub blink_round : Bool → KernelProc Bool
blink_round state = do
  emit (gpio_set_value state)
  period ← gets (λ k. k.blink_period_ms)
  emit (msleep (u32 (half period)))
  pure (not state)

-- `while (!kthread_should_stop())`, with fuel; `none` means that the fuel ran out.
unfoldable pub blink_loop : Linux → ℕ → Bool → KernelProc (Option ℤ)
blink_loop linux zero state = pure none
blink_loop linux (suc fuel) state = do
  stop ← ask (linux.kthread_should_stop blink_task) (Call.kthread_should_stop blink_task)
  elim stop [ true ↦ pure (some (pos 0)) | false ↦ blink_round state >>= blink_loop linux fuel ]

unfoldable pub thread_blink_thread : Linux → ℕ → KernelProc (Option ℤ)
unfolding blink_loop blink_round
thread_blink_thread linux fuel = blink_loop linux fuel false
