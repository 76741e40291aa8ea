-- ===== src/System/Spec.antt =====
-- What the whole program promises to its users: what a message, a command line, a press of a button
-- and a round of the regulator make of the mode and the period.
use Prim.Native.String.{String}
use text.Mathlib.Text.{◌==◌ as str_eq}
use mse_ma_csel.Common.{ℕ, ◌+◌, ◌-◌, ◌%◌, ◌^◌, List, [], ◌∷◌, ltb, leb, ◌&&◌, if◌then◌else◌}
use mse_ma_csel.Common.Int.{ℤ, pos, is_zero, is_num}
use mse_ma_csel.Common.Words.{u32}
use mse_ma_csel.Kernel.Spec.{Control, accepted}
use mse_ma_csel.Daemon.Main.{BtnType, btn_increase, btn_decrease, btn_mode}
use mse_ma_csel.Daemon.Ipc.{IpcMsg, cmd_set_mode, cmd_set_period, cmd_inc_period, cmd_dec_period}

abbrev pub slower : Control → Control
slower c = record c { period = accepted c.mode ((c.period + 50) % 2 ^ 32) c.period }

abbrev pub faster : Control → Control
faster c = record c {
  period = if is_zero c.mode && ltb 50 c.period then c.period - 50 else c.period;
}

abbrev pub switched : Control → Control
switched c = record c { mode = if is_zero c.mode then pos 1 else pos 0 }

abbrev pub with_mode : ℕ → Control → Control
with_mode n c = record c { mode = if leb n 1 then pos n else c.mode }

abbrev pub with_period : ℕ → Control → Control
with_period n c = record c { period = accepted c.mode n c.period }

-- A press of a button.
abbrev pub pressed : BtnType → Control → Control
pressed btn_increase c = slower c
pressed btn_decrease c = faster c
pressed btn_mode c = switched c

-- A message, of any command and value.
abbrev pub respond : IpcMsg → Control → Control
respond msg c =
    if is_num msg.command cmd_set_mode
    then with_mode msg.value c
    else if is_num msg.command cmd_set_period
    then with_period msg.value c
    else if is_num msg.command cmd_inc_period
    then slower c
    else if is_num msg.command cmd_dec_period
    then faster c
    else c

-- A command line, where `atoi` reads a number: `dec` and `inc` are said of the frequency.
abbrev pub ordered : (String → ℤ) → List String → Control → Control
ordered atoi [] c = c
ordered atoi (prog ∷ []) c = c
ordered atoi (prog ∷ verb ∷ []) c =
    if str_eq verb "dec" then slower c else if str_eq verb "inc" then faster c else c
ordered atoi (prog ∷ verb ∷ arg ∷ []) c =
    if str_eq verb "mode"
    then with_mode (u32 (atoi arg)) c
    else if str_eq verb "period"
    then with_period (u32 (atoi arg)) c
    else c
ordered atoi (prog ∷ verb ∷ arg ∷ more ∷ rest) c = c
