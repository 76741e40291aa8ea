-- ===== src/Daemon/Oled.antt =====
-- src/06-mini-project/daemon/oled/oled.c: what the display shows of the regulator. A temperature is
-- a `float`, of any type `F`; how the C library prints it, the frequency and an `int` is a
-- parameter.
pub mod Rows
use mse_ma_csel.Common.{
  ℕ, Bool, true, false, not, Option, none, some, List, [], ◌∷◌, ◌++◌, take, if◌then◌else◌, ◌>>=◌,
  ◌>>◌, pure,
}
use mse_ma_csel.Common.Int.{ℤ, is_zero}
use mse_ma_csel.Common.Words.{i32}
use mse_ma_csel.Common.Text.{Bytes, Format}
use mse_ma_csel.Daemon.State.{Files, DaemonProc}
use mse_ma_csel.Daemon.Files.{sysfs_get_temperature}
use mse_ma_csel.Daemon.App.{get_mode, get_period}
use mse_ma_csel.Daemon.Ssd1306.{Message, set_position, puts}

-- The conversions of `snprintf`: "%.1f" of a temperature, "%.2f" of `1.0f / (period_ms / 1000.0f)`,
-- and "%d".
pub record Printer (F : Type 0) : Type 0 where
  pub print_temp : F → Bytes
  pub print_freq : ℕ → Bytes
  pub print_d : ℤ → Bytes

-- `snprintf(buffer, sizeof(buffer), ...)`: at most 19 characters.
abbrev pub in_buffer : Bytes → Bytes
in_buffer = take 19

abbrev pub title : Bytes
title =
    b'C' ∷ b'S' ∷ b'E' ∷ b'L' ∷ b'1' ∷ b'a' ∷ b' ' ∷ b'-' ∷ b' ' ∷ b'S' ∷ b'P' ∷ b'.' ∷ b'0' ∷ b'7'
    ∷ []

abbrev pub subtitle : Bytes
subtitle =
    b' ' ∷ b' ' ∷ b'W' ∷ b'A' ∷ b'T' ∷ b'C' ∷ b'H' ∷ b'D' ∷ b'O' ∷ b'G' ∷ b' ' ∷ b'C' ∷ b'P' ∷ b'U'
    ∷ b' ' ∷ []

abbrev pub ruler : Bytes
ruler =
    b'-' ∷ b'-' ∷ b'-' ∷ b'-' ∷ b'-' ∷ b'-' ∷ b'-' ∷ b'-' ∷ b'-' ∷ b'-' ∷ b'-' ∷ b'-' ∷ b'-' ∷ b'-'
    ∷ []

abbrev pub mode_name : ℤ → Bytes
mode_name mode =
    if not (is_zero mode)
    then b'A' ∷ b'U' ∷ b'T' ∷ b'O' ∷ b' ' ∷ b' ' ∷ b' ' ∷ []
    else b'M' ∷ b'A' ∷ b'N' ∷ b'U' ∷ b'A' ∷ b'L' ∷ []

abbrev pub mode_text : ℤ → Bytes
mode_text mode = b'M' ∷ b'o' ∷ b'd' ∷ b'e' ∷ b':' ∷ b' ' ∷ mode_name mode

-- One row: its position and its text.
abbrev pub row : ℕ → Bytes → List Message
row r cs = set_position 0 r ++ puts cs

module _ {F : Type 0} (printer : Printer F) where
  abbrev pub temp_text : F → Bytes
  temp_text temp =
      b'T' ∷ b'e' ∷ b'm' ∷ b'p' ∷ b':' ∷ b' ' ∷ (printer.print_temp temp ++ b'\'' ∷ b'C' ∷ [])

  abbrev pub freq_text : ℕ → Bytes
  freq_text period_ms =
      b'F'
      ∷ b'r'
      ∷ b'e'
      ∷ b'q'
      ∷ b':'
      ∷ b' '
      ∷ (printer.print_freq period_ms ++ b'H' ∷ b'z' ∷ b' ' ∷ b' ' ∷ [])

  -- "%d" reads the `uint32_t` as an `int`.
  abbrev pub period_text : ℕ → Bytes
  period_text period_ms =
      b'P'
      ∷ b'e'
      ∷ b'r'
      ∷ b'i'
      ∷ b'o'
      ∷ b'd'
      ∷ b':'
      ∷ b' '
      ∷ (printer.print_d (i32 period_ms) ++ b'm' ∷ b's' ∷ b' ' ∷ b' ' ∷ [])

  unfoldable pub display : ℤ → F → ℕ → List Message
  display mode temp period_ms =
      row 0 title
      ++ row 1 subtitle
      ++ row 2 ruler
      ++ row 3 (in_buffer (mode_text mode))
      ++ row 4 (in_buffer (temp_text temp))
      ++ row 5 (in_buffer (freq_text period_ms))
      ++ row 6 (in_buffer (period_text period_ms))

-- `struct oled_callbacks_t`
pub record OledCallbacks (W F : Type 0) : Type 0 where
  pub get_temperature : DaemonProc W F
  pub get_mode : DaemonProc W ℤ
  pub get_period : DaemonProc W ℕ

-- What `main` passes to `init_oled`.
abbrev pub oled_cbs : {W F : Type 0} → Files W → Format → F → (Bytes → Option F) → OledCallbacks W F
oled_cbs files text zero_f scan_f = record {
  get_temperature = sysfs_get_temperature files text zero_f scan_f;
  get_mode = get_mode files text;
  get_period = get_period files text;
}

module _ {W F : Type 0} (printer : Printer F) where
  -- One turn of `update_oled_thread`, up to its sleep: the messages to the display. C leaves the
  -- order open in which the arguments of `display` are read; here it is the one of the text.
  unfoldable pub update_turn : Option (OledCallbacks W F) → DaemonProc W (List Message)
  update_turn none = pure []
  update_turn (some cbs) = do
    mode ← cbs.get_mode
    temp ← cbs.get_temperature
    period ← cbs.get_period
    pure (display printer mode temp period)
