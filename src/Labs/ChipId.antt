-- ===== src/Labs/ChipId.antt =====
-- src/02-driver/exercice/ex1-memory-oriented.c: four registers, read through a page of /dev/mem.
use native.Mathlib.Nat.{mod-le, mod-mod_of_dvd, dvd_of_mod-eq-zero}
use mse_ma_csel.Common.{
  ℕ, ◌+◌, ◌-◌, ◌*◌, ◌/◌, ◌%◌, ◌≤◌, ◌≡◌, refl, Bool, true, Option, none, some, List, [], ◌∷◌, leb,
  suc, ap, not, ◌&&◌, ◌||◌, ◌==◌, if◌then◌else◌, map, arith,
}
use mse_ma_csel.Common.Int.{ℤ, is_neg}

pub data Call : Type 0 where
  open_mem : ℤ → Call
  mmap : (size start : ℕ) → Bool → Call
  munmap : ℕ → Call
  close : ℤ → Call

-- The size of a page, the answers of `open` and `mmap`, and the word at each physical address.
pub record Machine : Type 0 where
  pub getpagesize : ℕ
  pub open_mem : ℤ
  pub can_map : ℕ → ℕ → Bool
  pub memory : ℕ → ℕ

abbrev pub chip_id_addr : ℕ
chip_id_addr = 0x01c14200

-- `*(regs + i)` of a mapping of `size` bytes from `start` on: `none` behind its end.
abbrev pub reg : Machine → (size start i : ℕ) → Option ℕ
reg m size start i = if leb (i * 4 + 4) size then some (m.memory (start + i * 4)) else none

-- The exit code, what is printed, and the calls, newest first.
unfoldable pub ex_memory_oriented : Machine → ℕ × List (Option ℕ) × List Call
ex_memory_oriented m =
    let page_size = m.getpagesize in
    let offset = chip_id_addr % page_size in
    let start_page = chip_id_addr - offset in
    let opened = Call.open_mem m.open_mem ∷ [] in
    let mapped = mmap page_size start_page (m.can_map page_size start_page) ∷ opened in
    let chipid = map (λ k. reg m page_size start_page ((k + offset) / 4)) (0 ∷ 4 ∷ 8 ∷ 12 ∷ []) in
    if is_neg m.open_mem
    then (1, [], opened)
    else if m.can_map page_size start_page
    then (0, chipid, close m.open_mem ∷ munmap page_size ∷ mapped)
    else (1, [], mapped)

-- How many files and mappings the calls leave in use.
abbrev pub in_use : List Call → ℕ
in_use [] = 0
in_use (Call.open_mem fd ∷ cs) = if is_neg fd then in_use cs else suc (in_use cs)
in_use (mmap size start done ∷ cs) = if done then suc (in_use cs) else in_use cs
in_use (munmap size ∷ cs) = in_use cs - 1
in_use (close fd ∷ cs) = in_use cs - 1

abbrev pub maps_page : Machine → Bool
maps_page m = m.can_map m.getpagesize (chip_id_addr - chip_id_addr % m.getpagesize)

-- The word at the address is read through the page that it lies on.
reg_lem :
    (m : Machine) (k : ℕ)
    → m.getpagesize % 4 ≡ 0
    → k % 4 ≡ 0
    → chip_id_addr % m.getpagesize + k + 4 ≤ m.getpagesize
    → let offset = chip_id_addr % m.getpagesize in
      reg m m.getpagesize (chip_id_addr - offset) ((k + offset) / 4)
      ≡ some (m.memory (chip_id_addr + k))
reg_lem m k words four fits =
    let offset = chip_id_addr % m.getpagesize in
    let aligned = mod-mod_of_dvd 4 chip_id_addr (dvd_of_mod-eq-zero 4 words) in
    let whole : (k + offset) / 4 * 4 ≡ k + offset = omega (arith, aligned, four) in
    let inside : leb ((k + offset) / 4 * 4 + 4) m.getpagesize ≡ true =
      ground (arith, whole, fits) in
    let address : chip_id_addr - offset + (k + offset) / 4 * 4 ≡ chip_id_addr + k =
      omega (arith, whole, mod-le chip_id_addr m.getpagesize) in
    rw inside (ap (λ a. some (m.memory a)) address)

-- Where the size of a page is a multiple of 4 and the four registers lie on one page: if both calls
-- are granted, the program returns 0, prints the words at 0x01c14200 and the three behind it,
-- whatever the size of a page is and with no read outside of it, and leaves nothing in use. If one
-- is refused it returns 1 and prints none, and leaves its file open if that is the call of mmap.
pub ex_memory_oriented_reads :
    (m : Machine)
    → m.getpagesize % 4 ≡ 0
    → chip_id_addr % m.getpagesize + 16 ≤ m.getpagesize
    → let (code, printed, calls) = ex_memory_oriented m in
      (code ≡ (if not (is_neg m.open_mem) && maps_page m then 0 else 1))
      × (printed ≡ (
          if code == 0
          then map (λ k. some (m.memory (chip_id_addr + k))) (0 ∷ 4 ∷ 8 ∷ 12 ∷ [])
          else []))
      × (in_use calls ≡ (if is_neg m.open_mem || maps_page m then 0 else 1))
unfolding ex_memory_oriented
ex_memory_oriented_reads m words fits = ground (
  arith,
  reg_lem m 0 words refl (omega (arith, fits)),
  reg_lem m 4 words refl (omega (arith, fits)),
  reg_lem m 8 words refl (omega (arith, fits)),
  reg_lem m 12 words refl (omega (arith, fits)),
)
