-- ===== src/Kernel/Spec.antt =====
-- What the loaded module promises to whoever uses its files: a mode and a period, what each request
-- makes of them, and what a reader is told.
use mse_ma_csel.Common.{ℕ, ◌/◌, ◌%◌, ◌≡◌, true, Option, none, some, ltb, ◌&&◌, ◌||◌, if◌then◌else◌}
use mse_ma_csel.Common.Int.{ℤ, is_zero, is_num}
use mse_ma_csel.Common.Text.{Bytes, Format}
use mse_ma_csel.Kernel.State.{Kernel, sysfs_cbs}
use mse_ma_csel.Kernel.Temp.{to_temperature}
use mse_ma_csel.Kernel.Regulator.{auto_period}
use mse_ma_csel.Kernel.Regulator.Invariant.{IsRegulated}
use mse_ma_csel.Kernel.Entries.{
  Entry, read_temperature, read_mode, read_period_status, round, write_mode, write_period_set,
}

-- What the regulator decides on: its mode and its period.
pub record Control : Type 0 where
  pub mode : ℤ
  pub period : ℕ

abbrev pub control : Kernel → Control
control k = record { mode = k.current_mode; period = k.current_period }

-- A loaded module between two operations.
pub record IsUp (k : Kernel) : Type 0 where
  pub regulated : IsRegulated k
  pub linked : k.device_cbs ≡ sysfs_cbs
  pub mapped : k.temp_reg ≡ true

-- The period after a write of `p` over `old`.
abbrev pub accepted : ℤ → ℕ → ℕ → ℕ
accepted mode p old = if is_zero mode && ltb 0 p then p else old

-- A request; the sensor's register is read by `get_temperature` and `regulate`.
pub data Request : Type 0 where
  get_mode get_period ignored : Request
  get_temperature regulate set_period : ℕ → Request
  set_mode : ℤ → Request

abbrev pub perform : Request → Control → Control
perform (set_mode m) c = if is_zero m || is_num m 1 then record c { mode = m } else c
perform (set_period p) c = record c { period = accepted c.mode p c.period }
perform (regulate raw) c =
    if is_num c.mode 1 then record c { period = auto_period (to_temperature raw / 1000) } else c
perform get_mode c = c
perform get_period c = c
perform (get_temperature raw) c = c
perform ignored c = c

-- The text that a reader gets.
abbrev pub reply : Format → Request → Control → Option Bytes
reply text get_mode c = some (text.print_d c.mode)
reply text get_period c = some (text.print_u c.period)
reply text (get_temperature raw) c =
    some (text.print_milli (to_temperature raw / 1000) (to_temperature raw % 1000))
reply text ignored c = none
reply text (regulate raw) c = none
reply text (set_period p) c = none
reply text (set_mode m) c = none

abbrev asked_mode : Option ℤ → Request
asked_mode none = ignored
asked_mode (some m) = set_mode m

abbrev asked_period : Option ℕ → Request
asked_period none = ignored
asked_period (some p) = set_period p

-- The request that an entry of the module makes, where the register shows `raw`.
abbrev pub request : Format → ℕ → Entry → Request
request text raw read_temperature = get_temperature raw
request text raw read_mode = get_mode
request text raw read_period_status = get_period
request text raw round = regulate raw
request text raw (write_mode buf count) = asked_mode (text.kstrtoint buf)
request text raw (write_period_set buf count) = asked_period (text.kstrtouint buf)
