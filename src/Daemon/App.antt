-- ===== src/Daemon/App.antt =====
-- src/06-mini-project/daemon/application/app.c: the operations on period and mode, and the queue of
-- animations of the power LED.
use Prim.Native.Nat.{bit_xor}
use mse_ma_csel.Common.{
  ℕ, ◌+◌, ◌-◌, ◌%◌, ◌^◌, Bool, true, false, Option, none, some, ◌∷◌, ltb, ◌==◌, if◌then◌else◌,
  ◌>>=◌, ◌>>◌, pure, gets, modify, when, not, ◌&&◌,
}
use mse_ma_csel.Common.Int.{ℤ}
use mse_ma_csel.Common.Words.{u32, i32}
use mse_ma_csel.Common.Text.{Format}
use mse_ma_csel.Daemon.State.{anim_lock, app_lock, led_mutex, Files, DaemonProc, lock, unlock}
use mse_ma_csel.Daemon.Files.{sysfs_get_mode, sysfs_set_mode, sysfs_get_period, sysfs_set_period}

-- `GAP_PERIOD_MS`
abbrev pub gap_period_ms : ℕ
gap_period_ms = 50

-- `a ^ 1` of an `int`, through its bit pattern.
abbrev pub xor_one : ℤ → ℤ
xor_one a = i32 (bit_xor (u32 a) 1)

module _ {W : Type 0} where
  -- `l` is the address that is passed: false for NULL.
  unfoldable pub btn_set_led : Bool → DaemonProc W (Unit {0})
  btn_set_led l = when l (modify (λ d. record d { led = true }))

module _ {W : Type 0} (files : Files W) (text : Format) where
  unfoldable pub set_period : ℕ → DaemonProc W (Unit {0})
  unfolding sysfs_set_period
  set_period period_ms = sysfs_set_period files text period_ms

  unfoldable pub get_period : DaemonProc W ℕ
  unfolding sysfs_get_period
  get_period = sysfs_get_period files text

  unfoldable pub increase_period : DaemonProc W (Unit {0})
  increase_period = do
    lock app_lock
    current_period ← sysfs_get_period files text
    set_period ((current_period + gap_period_ms) % 2 ^ 32)
    unlock app_lock

  unfoldable pub decrease_period : DaemonProc W (Unit {0})
  decrease_period = do
    lock app_lock
    current_period ← sysfs_get_period files text
    when (ltb gap_period_ms current_period) (set_period (current_period - gap_period_ms))
    unlock app_lock

  unfoldable pub get_mode : DaemonProc W ℤ
  get_mode = do mode ← sysfs_get_mode files text; pure (i32 mode)

  unfoldable pub set_mode : ℤ → DaemonProc W (Unit {0})
  set_mode mode = sysfs_set_mode files text (u32 mode)

  unfoldable pub mode_toggle : DaemonProc W (Unit {0})
  mode_toggle = do
    lock app_lock
    mode ← sysfs_get_mode files text
    set_mode (xor_one (i32 mode))
    unlock app_lock

-- The queue.
module _ {W : Type 0} where
  -- `LED_on` and `LED_off` of the power LED, as the worker calls them.
  abbrev write_led : Bool → DaemonProc W (Unit {0})
  write_led on = do
    lock led_mutex
    modify (λ d. record d { lights = on ∷ d.lights })
    unlock led_mutex

  unfoldable pub trigger_pulse : DaemonProc W (Unit {0})
  trigger_pulse = do
    lock anim_lock
    modify (λ d. record d { pending_animations = d.pending_animations + 1 })
    unlock anim_lock

  -- One turn of `animation_worker`, from the outer `while` to the next: `none` where the thread
  -- goes to sleep in `pthread_cond_wait`, which gives the mutex back and takes it again, as the
  -- next turn does, before it looks again; `some false` where the thread ends, `some true` after an
  -- animation.
  unfoldable pub animation_turn : DaemonProc W (Option Bool)
  animation_turn = do
    go_on ← gets (λ d. d.keep_running)
    if not go_on then pure (some false) else (do
      lock anim_lock
      pending ← gets (λ d. d.pending_animations)
      running ← gets (λ d. d.keep_running)
      if pending == 0 && running
          then (do unlock anim_lock; pure none)
          else (if not running then (do unlock anim_lock; pure (some false)) else (do
            modify (λ d. record d { pending_animations = d.pending_animations - 1 })
            unlock anim_lock
            has_led ← gets (λ d. d.led)
            when has_led (do write_led true; write_led false)
            pure (some true))))

module _ {W : Type 0} (files : Files W) (text : Format) where
  unfoldable pub btn_increase_period : DaemonProc W (Unit {0})
  btn_increase_period = do trigger_pulse; increase_period files text

  unfoldable pub btn_decrease_period : DaemonProc W (Unit {0})
  btn_decrease_period = do trigger_pulse; decrease_period files text
