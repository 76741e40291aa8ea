-- ===== src/Tests/CourseTests.antt =====
-- The course's drivers and the memory of the board at concrete inputs.
use mse_ma_csel.Common.{
  ◌+◌, ◌≤◌, ◌≡◌, true, false, not, ◌&&◌, ◌||◌, some, [], ◌∷◌, map, ltb, ◌==◌, if◌then◌else◌, arith,
}
use mse_ma_csel.Common.Int.{pos, negsuc, is_zero, is_neg}
use mse_ma_csel.Labs.ChipId.{
  Machine, chip_id_addr, ex_memory_oriented, in_use, maps_page, ex_memory_oriented_reads,
}
use mse_ma_csel.Solutions.Children.{
  Answers, drv_probe, drv_remove, live, count, fresh, gone, drv_probe_registers,
}

-- Pages of 4 KB, and a memory in which each word holds its address.
abbrev board : Machine
board = record {
  getpagesize = 4096;
  open_mem = pos 3;
  can_map = λ size start. true;
  memory = λ address. address;
}

ex_memory_oriented_example :
    let (code, printed, calls) = ex_memory_oriented board in
    (code ≡ (if not (is_neg board.open_mem) && maps_page board then 0 else 1))
    × (printed ≡ (
        if code == 0
        then map (λ k. some (board.memory (chip_id_addr + k))) (0 ∷ 4 ∷ 8 ∷ 12 ∷ [])
        else []))
    × (in_use calls ≡ (if is_neg board.open_mem || maps_page board then 0 else 1))
ex_memory_oriented_example = ex_memory_oriented_reads board (omega arith) (omega arith)

-- The third registration is refused.
abbrev two_devices : Answers
two_devices = record {
  devm_kzalloc = λ cs. true;
  misc_register = λ i cs. if ltb i 2 then pos 0 else negsuc 15;
  device_create_file = λ i cs. pos 0;
}

drv_probe_registers_example :
    let (ret, d) = drv_probe two_devices (some 3) fresh in
    (live 1 d.calls ≡ some (ltb 1 (count d.calls)))
    × (if is_zero ret
        then ((count d.calls ≡ 3) × (gone 1 (drv_remove d) ≡ some false))
        else (count d.calls ≤ 3))
drv_probe_registers_example = drv_probe_registers two_devices 3 1
