-- ===== src/Daemon/Ssd1306/Screen.antt =====
-- What the messages put on the screen.
use mse_ma_csel.Common.{
  ℕ, zero, suc, ◌+◌, ◌*◌, ◌<◌, ◌%◌, ◌/◌, ◌≡◌, refl, ap, Bool, true, ◌&&◌, List, [], ◌∷◌, ◌++◌,
  length, length-append, get_or, flat_map, ltb, ◌==◌, arith,
}
use mse_ma_csel.Daemon.Ssd1306.{
  Glyph, font, data_mode, command_mode, Message, send_data, set_position, glyph_index, putc, puts,
}

abbrev all_bytes : Glyph → Bool
all_bytes [] = true
all_bytes (b ∷ bs) = ltb b 256 && all_bytes bs

-- Every row has eight columns, each a byte.
abbrev all_rows : List Glyph → Bool
all_rows [] = true
all_rows (g ∷ gs) = length g == 8 && all_bytes g && all_rows gs

font_rows : all_rows font ≡ true
font_rows = refl

row_of :
    (gs : List Glyph) (i : ℕ)
    → all_rows gs ≡ true
    → i < length gs
    → (length (get_or gs i []) ≡ 8) × (all_bytes (get_or gs i []) ≡ true)
row_of [] i h lt = absurd (omega arith)
row_of (g ∷ gs) zero h lt = ground arith
row_of (g ∷ gs) (suc i) h lt = row_of gs i (ground arith) (omega arith)

glyph_index-lt : (c : ℕ) → glyph_index c < 96
glyph_index-lt c = ground arith

glyph_rows :
    (c : ℕ)
    → (length (get_or font (glyph_index c) []) ≡ 8)
      × (all_bytes (get_or font (glyph_index c) []) ≡ true)
glyph_rows c = row_of font (glyph_index c) font_rows (glyph_index-lt c)

-- The columns that messages carry.
abbrev pub columns : List Message → List ℕ
columns [] = []
columns (m ∷ ms) = m.byte ∷ columns ms

-- All are messages of data.
abbrev pub AllData : List Message → Type 0
AllData [] = Unit {0}
AllData (m ∷ ms) = (m.mode ≡ data_mode) × AllData ms

columns-send : (g : Glyph) → all_bytes g ≡ true → columns (flat_map send_data g) ≡ g
columns-send [] h = refl
columns-send (b ∷ bs) h = ground (arith, columns-send bs)

AllData-send : (g : Glyph) → AllData (flat_map send_data g)
AllData-send [] = tt
AllData-send (b ∷ bs) = (refl, AllData-send bs)

columns-append : (ms ns : List Message) → columns (ms ++ ns) ≡ columns ms ++ columns ns
columns-append [] ns = refl
columns-append (m ∷ ms) ns = ap (◌∷◌ (m.byte)) (columns-append ms ns)

AllData-append : (ms ns : List Message) → AllData ms → AllData ns → AllData (ms ++ ns)
AllData-append [] ns h k = k
AllData-append (m ∷ ms) ns h k = (h.0, AllData-append ms ns h.1 k)

-- The text as columns of the font, character by character.
abbrev pub rendered : List ℕ → List ℕ
rendered [] = []
rendered (c ∷ cs) = get_or font (glyph_index c) [] ++ rendered cs

-- Any text is sent as data only, as the columns of its characters in the font, cut short nowhere
-- and read nowhere outside the font: eight columns for each character.
pub puts-rendered :
    (cs : List ℕ)
    → AllData (puts cs)
      × (columns (puts cs) ≡ rendered cs)
      × (length (columns (puts cs)) ≡ 8 * length cs)
unfolding puts putc
puts-rendered [] = (tt, refl, refl)
puts-rendered (c ∷ cs) =
    let g = get_or font (glyph_index c) [] in
    let (data_only, same, long) = puts-rendered cs in
    let split = columns-append (flat_map send_data g) (puts cs) in
    let row = columns-send g (glyph_rows c).1 in
    (
      AllData-append (flat_map send_data g) (puts cs) (AllData-send g) data_only,
      rw split (rw (row, same)),
      rw split
          (rw row (omega (arith, length-append g (columns (puts cs)), (glyph_rows c).0, long))),
    )

-- For a column below 16 and a row below 8, the three commands that `set_position` sends select the
-- page `row`, and the low and the high half of the pixel column `8 * column`.
pub set_position_addresses :
    (column row : ℕ)
    → column < 16
    → row < 8
    → (lo hi : ℕ) × (set_position column row
        ≡ record { mode = command_mode; byte = 0xb0 + row }
          ∷ record { mode = command_mode; byte = lo }
          ∷ record { mode = command_mode; byte = 0x10 + hi }
          ∷ [])
      × (lo < 16)
      × (hi < 16)
      × (lo + 16 * hi ≡ 8 * column)
unfolding set_position
set_position_addresses column row hc hr =
    (8 * column % 16, 8 * column / 16, ground arith, omega arith, omega arith, omega arith)
