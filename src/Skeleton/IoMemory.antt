-- ===== src/Skeleton/IoMemory.antt =====
-- src/01-skeleton/kernel-module/s02e05-io_memory_mapped.c: three groups of registers that are
-- reserved, mapped, read and unmapped. The kernel's calls are recorded, newest first, with their
-- answers, which any functions of the calls made so far may give. What is printed is the result.
pub mod Regions
use mse_ma_csel.Common.{
  ℕ, ◌+◌, ◌/◌, ◌%◌, ◌^◌, Bool, true, false, Option, none, some, List, [], ◌∷◌, Proc, if◌then◌else◌,
  ◌>>=◌, ◌>>◌, pure, gets, when,
}
use mse_ma_csel.Kernel.Temp.{line}

-- A base address, with whether it was granted.
pub data Call : Type 0 where
  request_mem_region ioremap : ℕ → Bool → Call
  ioread32 : ℕ → Call
  iounmap release_mem_region : ℕ → Call

pub record Answers : Type 0 where
  pub request_mem_region : ℕ → List Call → Bool
  pub ioremap : ℕ → List Call → Bool
  pub ioread32 : ℕ → List Call → ℕ

abbrev pub emit : Call → Proc (List Call) (Unit {0})
emit c cs = (tt, c ∷ cs)

abbrev pub chip_id_base_addr : ℕ
chip_id_base_addr = 0x01c14000

abbrev pub temperature_sensor_base_addr : ℕ
temperature_sensor_base_addr = 0x01C25000

abbrev pub ethernet_controller_base_addr : ℕ
ethernet_controller_base_addr = 0x01C30000

-- What is printed of the registers.
pub record Readings : Type 0 where
  pub chipid : List ℕ
  pub temperature : ℕ
  pub register_value : ℕ
  pub mac_address : List ℕ

module _ (linux : Answers) where
  -- `resources[i]` is not NULL.
  unfoldable pub request : ℕ → Proc (List Call) Bool
  request base = do
    granted ← gets (linux.request_mem_region base)
    emit (Call.request_mem_region base granted)
    pure granted

  -- `registers[i]` is not NULL.
  unfoldable pub remap : ℕ → Proc (List Call) Bool
  remap base = do mapped ← gets (linux.ioremap base); emit (Call.ioremap base mapped); pure mapped

  unfoldable pub read32 : ℕ → Proc (List Call) ℕ
  read32 address = do
    value ← gets (linux.ioread32 address)
    emit (Call.ioread32 address)
    pure value

  -- The reads of `ioMemoryMapped_init`. The temperature's register is read a second time to be
  -- printed.
  unfoldable pub read_all : Proc (List Call) Readings
  read_all = do
    chip_0 ← read32 (chip_id_base_addr + 0x200)
    chip_1 ← read32 (chip_id_base_addr + 0x204)
    chip_2 ← read32 (chip_id_base_addr + 0x208)
    chip_3 ← read32 (chip_id_base_addr + 0x20c)
    raw ← read32 (temperature_sensor_base_addr + 0x80)
    again ← read32 (temperature_sensor_base_addr + 0x80)
    mac_0 ← read32 (ethernet_controller_base_addr + 0x50)
    mac_1 ← read32 (ethernet_controller_base_addr + 0x54)
    pure (record {
      chipid = chip_0 ∷ chip_1 ∷ chip_2 ∷ chip_3 ∷ [];
      temperature = line 1190 223000 raw;
      register_value = again;
      mac_address =
          mac_1 % 256
          ∷ mac_1 / 2 ^ 8 % 256
          ∷ mac_1 / 2 ^ 16 % 256
          ∷ mac_1 / 2 ^ 24 % 256
          ∷ mac_0 % 256
          ∷ mac_0 / 2 ^ 8 % 256
          ∷ [];
    })

  -- The reads with everything mapped, and the end of the mappings.
  unfoldable pub read_and_unmap : Proc (List Call) (Option Readings)
  read_and_unmap = do
    r ← read_all
    emit (iounmap chip_id_base_addr)
    emit (iounmap temperature_sensor_base_addr)
    emit (iounmap ethernet_controller_base_addr)
    pure (some r)

  -- From the first `ioremap` on: a mapping that fails ends the function.
  unfoldable pub map_and_read : Proc (List Call) (Option Readings)
  map_and_read = do
    chip ← remap chip_id_base_addr
    if chip
        then (do
          sensor ← remap temperature_sensor_base_addr
          if sensor
              then (do
                ethernet ← remap ethernet_controller_base_addr
                if ethernet then read_and_unmap else pure none)
              else pure none)
        else pure none

  -- The result is `resources`, and the readings if there are any.
  unfoldable pub io_memory_mapped_init : Proc (List Call) ((Bool × Bool × Bool) × Option Readings)
  io_memory_mapped_init = do
    chip ← request chip_id_base_addr
    sensor ← request temperature_sensor_base_addr
    ethernet ← request ethernet_controller_base_addr
    readings ← map_and_read
    pure ((chip, sensor, ethernet), readings)

unfoldable pub io_memory_mapped_exit : Bool × Bool × Bool → Proc (List Call) (Unit {0})
io_memory_mapped_exit (chip, sensor, ethernet) = do
  when chip (emit (release_mem_region chip_id_base_addr))
  when sensor (emit (release_mem_region temperature_sensor_base_addr))
  when ethernet (emit (release_mem_region ethernet_controller_base_addr))
