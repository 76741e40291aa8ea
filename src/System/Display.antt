-- ===== src/System/Display.antt =====
-- The display, from the kernel's variables and the sensor's register to what it shows.
use mse_ma_csel.Common.{ℕ, ◌/◌, ◌%◌, ◌≡◌, ap, ◌∙◌, Option, some, List, ◌∷◌, arith}
use mse_ma_csel.Common.Int.{ℤ}
use mse_ma_csel.Common.Words.{i32}
use mse_ma_csel.Common.Text.{Bytes, Format, IsFaithful}
use mse_ma_csel.Kernel.State.{Linux, Kernel, Call, temp_lock, sysfs_lock, mutex_lock}
use mse_ma_csel.Kernel.Temp.{to_temperature, read_temp}
use mse_ma_csel.Kernel.Callbacks.{cb_get_temperature}
use mse_ma_csel.Kernel.Sysfs.{temperature_show}
use mse_ma_csel.Daemon.State.{Daemon}
use mse_ma_csel.Daemon.Files.{scanned, sysfs_get_temperature, sysfs_get_mode}
use mse_ma_csel.Daemon.App.{get_mode, get_period}
use mse_ma_csel.Daemon.Oled.{Printer, oled_cbs, display, update_turn}
use mse_ma_csel.Daemon.Oled.Rows.{draw, shown, texts, display-shown}
use mse_ma_csel.System.{files}
use mse_ma_csel.System.Link.{
  IsUp, Control, control, Becomes, sysfs_get_period_reads, sysfs_get_mode_reads,
}

module _ (linux : Linux) (text : Format) {F : Type 0} (zero_f : F) (scan_f : Bytes → Option F) where
  -- The temperature that the daemon reads where the register shows `raw`.
  abbrev pub temp_read : ℕ → F
  temp_read raw =
      scanned zero_f
        (scan_f (text.print_milli (to_temperature raw / 1000) (to_temperature raw % 1000)))

  module _ (d : Daemon Kernel) (up : IsUp d.world) where
    sysfs_get_temperature_reads :
        let (t, d') = sysfs_get_temperature (files linux text) text zero_f scan_f d in
        (cs : List Call) × (t ≡ temp_read (linux.ioread32 cs)) × Becomes (control d.world) d'.world
    unfolding sysfs_get_temperature temperature_show cb_get_temperature read_temp
    sysfs_get_temperature_reads =
        (mutex_lock temp_lock ∷ mutex_lock sysfs_lock ∷ d.world.calls, ground arith, ground arith)

  shown_same :
      (printer : Printer F) (m m' : ℤ) (t t' : F) (q q' p c : ℕ)
      → m ≡ m'
      → t ≡ t'
      → q ≡ q'
      → draw (display printer m t q) p c ≡ shown 0 (texts printer m' t' q')
  shown_same printer m m' t t' q q' p c em et eq =
      rw (em, et, eq) (display-shown printer m' t' q' p c)

  module _ (printer : Printer F) (faithful : IsFaithful text) (d : Daemon Kernel)
      (up : IsUp d.world) where
    -- Over a loaded module in order, and where numbers read back as printed: a turn of the
    -- display's thread writes the seven rows with the kernel's mode and period and the temperature
    -- of some value that the register shows, each from the first column of its page on and, past
    -- sixteen characters, over the start of its page, wherever the display was at, and changes
    -- neither mode nor period.
    pub update_turn-shown :
        (p c : ℕ)
        → let (ms, d') =
            update_turn printer (some (oled_cbs (files linux text) text zero_f scan_f)) d in
          (cs : List Call) × (draw ms p c
            ≡ shown 0 (
                texts printer d.world.current_mode
                  (temp_read (linux.ioread32 cs))
                  d.world.current_period))
          × Becomes (control d.world) d'.world
    unfolding update_turn get_mode get_period
    update_turn-shown p c =
        let mode = sysfs_get_mode_reads linux text faithful d up in
        let d₁ = (sysfs_get_mode (files linux text) text d).1 in
        let (cs, temp, after) = sysfs_get_temperature_reads d₁ mode.1.up in
        let d₂ = (sysfs_get_temperature (files linux text) text zero_f scan_f d₁).1 in
        let period = sysfs_get_period_reads linux text faithful d₂ after.up in
        let same : control d₂.world ≡ control d.world = after.now ∙ mode.1.now in
        (
          cs,
          shown_same printer (i32 (sysfs_get_mode (files linux text) text d).0) d.world.current_mode
              _ _ _ _ p c (ground (arith, mode.0, up.regulated.mode_valid)) temp
              (period.0 ∙ ap (λ (x : Control). x.period) same),
          record { up = period.1.up; now = period.1.now ∙ same },
        )
