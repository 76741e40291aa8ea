-- ===== src/Daemon/Ssd1306.antt =====
-- src/06-mini-project/daemon/oled/ssd1306.c: the driver of the display. What it does is the list of
-- the two-byte messages that it writes to the bus, oldest first; a write that fails is only
-- reported.
mod Font
pub mod Screen
use mse_ma_csel.Common.{
  ℕ, zero, suc, ◌+◌, ◌-◌, ◌*◌, ◌/◌, ◌%◌, ◌^◌, ◌||◌, List, [], ◌∷◌, ◌++◌, flat_map, replicate, ltb,
  get_or, if◌then◌else◌,
}
use mse_ma_csel.Common.Int.{ℤ, pos, negsuc, is_neg}
pub use Font.{Glyph, font}

-- The first byte of a message: `OLED_COMMAND_MODE` or `OLED_DATA_MODE`.
abbrev pub command_mode : ℕ
command_mode = 0x00

abbrev pub data_mode : ℕ
data_mode = 0x40

pub record Message : Type 0 where
  pub mode : ℕ
  pub byte : ℕ

unfoldable pub init_commands : List ℕ
init_commands =
    0xAE ∷ 0x00 ∷ 0x10 ∷ 0x40 ∷ 0xB0 ∷ 0x81 ∷ 0xCF ∷ 0xA1 ∷ 0xA6 ∷ 0xA8 ∷ 0x3F ∷ 0xC8 ∷ 0xD3 ∷ 0x00
    ∷ 0xD5 ∷ 0x80 ∷ 0xD9 ∷ 0xF1 ∷ 0xDA ∷ 0x12 ∷ 0xDB ∷ 0x40 ∷ 0x8D ∷ 0x14 ∷ 0xAF ∷ []

abbrev pub send_command : ℕ → List Message
send_command cmd = record { mode = command_mode; byte = cmd % 256 } ∷ []

abbrev pub send_data : ℕ → List Message
send_data byte = record { mode = data_mode; byte = byte % 256 } ∷ []

-- `8*column` is a `uint32_t`; `& 0x0f` is `% 16` and `>> 4` is `/ 16`.
unfoldable pub set_position : ℕ → ℕ → List Message
set_position column row =
    send_command (0xb0 + row)
    ++ send_command (0x00 + 8 * column % 2 ^ 32 % 16)
    ++ send_command (0x10 + 8 * column % 2 ^ 32 / 16 % 16)

-- The row of the font for a character; `char` is unsigned on the board, and where it is signed a
-- byte from 128 on is negative, and is replaced by a space just the same.
abbrev pub glyph_index : ℕ → ℕ
glyph_index c = (if ltb c 32 || ltb 127 c then 32 else c) - 32

-- A read past the font's end, which never comes, is an empty row.
unfoldable pub putc : ℕ → List Message
putc c = flat_map send_data (get_or font (glyph_index c) [])

-- A text up to its terminating zero.
unfoldable pub puts : List ℕ → List Message
puts [] = []
puts (c ∷ cs) = putc c ++ puts cs

-- `for (j = row; j < row + rows; j++)` of `clear_display`.
abbrev clear_rows : ℕ → ℕ → List Message
clear_rows zero row = []
clear_rows (suc rows) row =
    set_position 0 row ++ puts (replicate 16 b' ') ++ clear_rows rows (row + 1)

unfoldable pub clear_display : List Message
clear_display = send_command 0xae ++ clear_rows 8 0 ++ send_command 0xaf ++ set_position 0 0

-- The results of `open` and `ioctl`: the result of `ssd1306_init` and the messages.
unfoldable pub init : ℤ → ℤ → ℤ × List Message
init fd slave =
    if is_neg fd
    then (negsuc 0, [])
    else if is_neg slave
    then (negsuc 0, [])
    else (pos 0, flat_map send_command init_commands ++ clear_display)
