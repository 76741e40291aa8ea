-- ===== src/Daemon/Oled/Rows.antt =====
-- What the display's rows hold after `display`.
use mse_ma_csel.Common.{
  ℕ, ◌+◌, ◌-◌, ◌*◌, ◌/◌, ◌%◌, ◌≤◌, ◌<◌, ◌≡◌, refl, ap, ◌∙◌, ◌&&◌, List, [], ◌∷◌, ◌++◌, length, ltb,
  leb, ◌==◌, if◌then◌else◌, arith,
}
use mathlib.Core.List.{append_assoc, append-nil}
use mse_ma_csel.Common.Int.{ℤ}
use mse_ma_csel.Common.Text.{Bytes}
use mse_ma_csel.Daemon.Ssd1306.{Message, data_mode, set_position, puts}
use mse_ma_csel.Daemon.Ssd1306.Screen.{AllData, columns, rendered, puts-rendered}
use mse_ma_csel.Daemon.Oled.{
  Printer, in_buffer, title, subtitle, ruler, mode_text, temp_text, freq_text, period_text, row,
  display,
}

-- A byte in the display's memory: page, column and value.
abbrev pub Cell : Type 0
Cell = ℕ × ℕ × ℕ

-- The columns of a page, and the one that follows a column: after the last one comes the first.
abbrev pub width : ℕ
width = 128

abbrev next_column : ℕ → ℕ
next_column column = (column + 1) % width

-- The cells that messages write, in their order, in the display's page addressing: three commands
-- move to a page and to a column, by its low and high half, and data goes to the next column.
abbrev pub draw : List Message → ℕ → ℕ → List Cell
draw [] page column = []
draw (m ∷ ms) page column =
    if m.mode == data_mode
    then (page, column, m.byte) ∷ draw ms page (next_column column)
    else if ltb m.byte 0x10
    then draw ms page (column / 16 * 16 + m.byte)
    else if ltb m.byte 0x20
    then draw ms page (column % 16 + 16 * (m.byte - 0x10))
    else if leb 0xb0 m.byte && ltb m.byte 0xb8
    then draw ms (m.byte - 0xb0) column
    else draw ms page column

-- The bytes from a column on, around the page.
abbrev pub cells : ℕ → ℕ → List ℕ → List Cell
cells page column [] = []
cells page column (b ∷ bs) = (page, column, b) ∷ cells page (next_column column) bs

-- The column after the messages' data.
abbrev past : List Message → ℕ → ℕ
past [] c = c
past (m ∷ ms) c = past ms (next_column c)

draw-data :
    (ms ns : List Message) (p c : ℕ)
    → AllData ms
    → draw (ms ++ ns) p c ≡ cells p c (columns ms) ++ draw ns p (past ms c)
draw-data [] ns p c h = refl
draw-data (m ∷ ms) ns p c h = ground (arith, h.0, draw-data ms ns p (next_column c) h.1)

draw-row :
    (r : ℕ) (cs : Bytes) (ns : List Message) (p c : ℕ)
    → r < 8
    → draw (row r cs ++ ns) p c ≡ cells r 0 (rendered cs) ++ draw ns r (past (puts cs) 0)
unfolding set_position
draw-row r cs ns p c lt =
    let (data_only, same, _) = puts-rendered cs in
    let moved : draw (row r cs ++ ns) p c ≡ draw (puts cs ++ ns) r 0 = ground arith in
    moved ∙ draw-data (puts cs) ns r 0 data_only ∙ rw same refl

-- A text of sixteen characters at most stays within its row: its `n`-th byte goes to column `n`.
abbrev straight : ℕ → ℕ → List ℕ → List Cell
straight page column [] = []
straight page column (b ∷ bs) = (page, column, b) ∷ straight page (column + 1) bs

cells-straight :
    (bs : List ℕ) (page c : ℕ) → c + length bs ≤ width → cells page c bs ≡ straight page c bs
cells-straight [] page c fits = refl
cells-straight (b ∷ []) page c fits = refl
cells-straight (b ∷ b' ∷ bs) page c fits =
    let e : (c + 1) % 128 ≡ c + 1 = omega (arith, fits) in
    ap (◌∷◌ (page, c, b)) (rw e (cells-straight (b' ∷ bs) page (c + 1) (omega (arith, fits))))

-- What comes after a full row is written over the row's start.
cells-over :
    (bs : List ℕ) (b page c : ℕ)
    → c < width
    → c + length bs ≡ width
    → cells page c (bs ++ b ∷ []) ≡ straight page c bs ++ (page, 0, b) ∷ []
cells-over [] b page c lt full = absurd (omega (arith, lt, full))
cells-over (x ∷ []) b page c lt full = let e : (c + 1) % 128 ≡ 0 = omega (arith, full) in rw e refl
cells-over (x ∷ y ∷ bs) b page c lt full =
    let e : (c + 1) % 128 ≡ c + 1 = omega (arith, full) in
    ap (◌∷◌ (page, c, x))
      (rw e (cells-over (y ∷ bs) b page (c + 1) (omega (arith, full)) (omega (arith, full))))

-- What texts write, a page for each from the first column on.
abbrev pub shown : ℕ → List Bytes → List Cell
shown r [] = []
shown r (cs ∷ css) = cells r 0 (rendered cs) ++ shown (r + 1) css

abbrev rows : ℕ → List Bytes → List Message
rows r [] = []
rows r (cs ∷ css) = row r cs ++ rows (r + 1) css

draw-rows :
    (css : List Bytes) (r p c : ℕ) → r + length css ≤ 8 → draw (rows r css) p c ≡ shown r css
draw-rows [] r p c le = refl
draw-rows (cs ∷ css) r p c le =
    draw-row r cs (rows (r + 1) css) p c (omega arith)
    ∙ ap (◌++◌ (cells r 0 (rendered cs))) (draw-rows css (r + 1) r (past (puts cs) 0) (omega arith))

nest :
    (a b d e f g h : List Message)
    → a ++ b ++ d ++ e ++ f ++ g ++ h ≡ a ++ (b ++ (d ++ (e ++ (f ++ (g ++ (h ++ []))))))
nest a b d e f g h = simp (append_assoc, append-nil)

seven :
    (a b d e f g h : Bytes)
    → row 0 a ++ row 1 b ++ row 2 d ++ row 3 e ++ row 4 f ++ row 5 g ++ row 6 h
      ≡ rows 0 (a ∷ b ∷ d ∷ e ∷ f ∷ g ∷ h ∷ [])
seven a b d e f g h = nest (row 0 a) (row 1 b) (row 2 d) (row 3 e) (row 4 f) (row 5 g) (row 6 h)

module _ {F : Type 0} (printer : Printer F) where
  -- The texts of the seven rows.
  abbrev pub texts : ℤ → F → ℕ → List Bytes
  texts mode temp period =
      title
      ∷ subtitle
      ∷ ruler
      ∷ in_buffer (mode_text mode)
      ∷ in_buffer (temp_text printer temp)
      ∷ in_buffer (freq_text printer period)
      ∷ in_buffer (period_text printer period)
      ∷ []

  -- Whatever page and column the display is at, `display` writes the seven texts, one on each page
  -- from the first column on, and nothing else: the headers, the mode, the temperature, the
  -- frequency and the period, the last four cut after 19 characters. A page has 128 columns, for
  -- sixteen characters: what is longer goes on at the start of its page.
  pub display-shown :
      (mode : ℤ) (temp : F) (period p c : ℕ)
      → draw (display printer mode temp period) p c ≡ shown 0 (texts mode temp period)
  unfolding display
  display-shown mode temp period p c =
      rw
        (seven title subtitle ruler (in_buffer (mode_text mode))
          (in_buffer (temp_text printer temp)) (in_buffer (freq_text printer period))
          (in_buffer (period_text printer period)))
        (draw-rows (texts mode temp period) 0 p c (omega arith))
