-- ===== src/System/Operations.antt =====
-- What the daemon's operations make of the kernel's mode and period.
use mse_ma_csel.Common.{◌+◌, ◌-◌, ◌%◌, ◌^◌, ◌<◌, ◌≡◌, ◌∷◌, if◌then◌else◌, ltb, ◌&&◌, arith}
use mse_ma_csel.Common.Int.{pos, is_zero}
use mse_ma_csel.Common.Text.{Format, IsFaithful}
use mse_ma_csel.Kernel.State.{Linux, Kernel}
use mse_ma_csel.Daemon.State.{app_lock, mutex_lock, Daemon}
use mse_ma_csel.Daemon.Files.{sysfs_get_mode, sysfs_get_period}
use mse_ma_csel.Daemon.App.{set_period, increase_period, decrease_period, set_mode, mode_toggle}
use mse_ma_csel.System.{files}
use mse_ma_csel.System.Link.{
  IsUp, control, accepted, Becomes, sysfs_get_period_reads, sysfs_get_mode_reads,
  sysfs_set_period_writes, sysfs_set_mode_writes,
}

module _ (linux : Linux) (text : Format) (faithful : IsFaithful text) (d : Daemon Kernel)
    (up : IsUp d.world) where
  -- Over a loaded module in order, and where numbers read back as printed: in manual mode
  -- `increase_period` makes the period 50 more, modulo 2 ^ 32, but leaves it if that is zero; in
  -- automatic mode it changes neither mode nor period.
  pub increase_period_lem :
      Becomes
        (record (control d.world) {
          period =
              accepted d.world.current_mode
                ((d.world.current_period + 50) % 2 ^ 32)
                d.world.current_period;
        })
        (increase_period (files linux text) text d).1.world
  unfolding increase_period set_period
  increase_period_lem =
      let d' : Daemon Kernel = record d { locks = mutex_lock app_lock ∷ d.locks } in
      let read = sysfs_get_period_reads linux text faithful d' up in
      let p = d.world.current_period in
      ground (
        arith,
        read,
        sysfs_set_period_writes linux text faithful (sysfs_get_period (files linux text) text d').1
            read.1.up ((p + 50) % 2 ^ 32),
      )

  -- Over a loaded module in order, and where numbers read back as printed: `decrease_period`
  -- lowers the period by 50 in manual mode, if it is more than 50, and else changes neither mode
  -- nor period.
  pub decrease_period_lem :
      Becomes
        (record (control d.world) {
          period =
              if is_zero d.world.current_mode && ltb 50 d.world.current_period
              then d.world.current_period - 50
              else d.world.current_period;
        })
        (decrease_period (files linux text) text d).1.world
  unfolding decrease_period set_period
  decrease_period_lem =
      let d' : Daemon Kernel = record d { locks = mutex_lock app_lock ∷ d.locks } in
      let read = sysfs_get_period_reads linux text faithful d' up in
      let p = d.world.current_period in
      ground (
        arith,
        read,
        up.regulated.period_word,
        sysfs_set_period_writes linux text faithful (sysfs_get_period (files linux text) text d').1
            read.1.up (p - 50),
      )

  -- Over a loaded module in order, and where numbers read back as printed: `mode_toggle` switches
  -- between manual and automatic, and keeps the period.
  pub mode_toggle_lem :
      Becomes
        (record (control d.world) { mode = if is_zero d.world.current_mode then pos 1 else pos 0 })
        (mode_toggle (files linux text) text d).1.world
  unfolding mode_toggle set_mode
  mode_toggle_lem =
      let d' : Daemon Kernel = record d { locks = mutex_lock app_lock ∷ d.locks } in
      let read = sysfs_get_mode_reads linux text faithful d' up in
      let after = (sysfs_get_mode (files linux text) text d').1 in
      ground (
        arith,
        read,
        up.regulated.mode_valid,
        sysfs_set_mode_writes linux text faithful after read.1.up 0,
        sysfs_set_mode_writes linux text faithful after read.1.up 1,
      )

-- Over a loaded module in order, where numbers read back as printed, in manual mode, and while
-- the period is below 2 ^ 32 - 50: an increase that is followed by a decrease gives the old mode
-- and period back.
pub increase_decrease :
    (linux : Linux) (text : Format)
    → IsFaithful text
    → (d : Daemon Kernel) → IsUp d.world
    → d.world.current_mode ≡ pos 0
    → d.world.current_period + 50 < 2 ^ 32
    → Becomes
        (control d.world)
        (decrease_period
          (files linux text)
          text
          (increase_period (files linux text) text d).1).1.world
increase_decrease linux text faithful d up manual small =
    let more = increase_period_lem linux text faithful d up in
    let raised = (increase_period (files linux text) text d).1 in
    ground (
      arith,
      more,
      up.regulated.period_positive,
      decrease_period_lem linux text faithful raised more.up,
    )
