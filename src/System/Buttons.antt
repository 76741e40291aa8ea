-- ===== src/System/Buttons.antt =====
-- A press of a button, from the event of its file to the kernel's variables.
use mse_ma_csel.Common.{◌≡◌, false, some, ◌∷◌, arith}
use mse_ma_csel.Common.Int.{is_neg}
use mse_ma_csel.Common.Text.{Format, IsFaithful}
use mse_ma_csel.Kernel.State.{Linux, Kernel}
use mse_ma_csel.Daemon.State.{Daemon, DaemonProc, btn_mutex, mutex_lock}
use mse_ma_csel.Daemon.App.{trigger_pulse, btn_increase_period, btn_decrease_period}
use mse_ma_csel.Daemon.Main.{BtnType, btn_increase, btn_decrease, btn_mode, btn_callback}
use mse_ma_csel.Daemon.Button.{Btn, handle_event}
use mse_ma_csel.System.{files}
use mse_ma_csel.System.Link.{IsUp, control, Becomes}
use mse_ma_csel.System.Spec.{pressed}
use mse_ma_csel.System.Operations.{increase_period_lem, decrease_period_lem, mode_toggle_lem}

abbrev under_lock : Daemon Kernel → Daemon Kernel
under_lock d = record d { locks = mutex_lock btn_mutex ∷ d.locks }

module _ (linux : Linux) (text : Format) where
  -- A button that was set up with the callback that `main` registers.
  abbrev pub button :
      BtnType → Btn (DaemonProc Kernel (Unit {0})) → Btn (DaemonProc Kernel (Unit {0}))
  button type b = record b { callback = some (btn_callback (files linux text) text type) }

  -- Over a loaded module in order, and where numbers read back as printed: an event of a button
  -- whose file is open and reads 1 raises the period by 50 (modulo 2 ^ 32), lowers it by 50, or
  -- switches the mode, as the button says and the regulator's rules allow.
  pub handle_event-press :
      (type : BtnType) (b : Btn (DaemonProc Kernel (Unit {0}))) (d : Daemon Kernel)
      → IsFaithful text
      → IsUp d.world
      → is_neg b.fd ≡ false
      → Becomes
          (pressed type (control d.world))
          (handle_event (some (button type b)) b'1' d).1.world
  unfolding handle_event btn_increase_period btn_decrease_period trigger_pulse
  handle_event-press btn_increase b d faithful up valid =
      ground (arith, increase_period_lem linux text faithful (trigger_pulse (under_lock d)).1 up)
  handle_event-press btn_decrease b d faithful up valid =
      ground (arith, decrease_period_lem linux text faithful (trigger_pulse (under_lock d)).1 up)
  handle_event-press btn_mode b d faithful up valid =
      ground (arith, mode_toggle_lem linux text faithful (under_lock d) up)
