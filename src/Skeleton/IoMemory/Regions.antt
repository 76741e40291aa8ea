-- ===== src/Skeleton/IoMemory/Regions.antt =====
-- What a load and an unload leave of the three groups of registers.
use mse_ma_csel.Common.{
  ℕ, ◌≡◌, Bool, true, false, not, ◌&&◌, ◌||◌, Option, none, some, List, [], ◌∷◌, ◌==◌,
  if◌then◌else◌, arith,
}
use mse_ma_csel.Skeleton.IoMemory.{
  Call, request_mem_region, ioremap, ioread32, iounmap, release_mem_region, Answers, Readings,
  chip_id_base_addr, temperature_sensor_base_addr, ethernet_controller_base_addr, request, remap,
  read32, read_all, read_and_unmap, map_and_read, io_memory_mapped_init, io_memory_mapped_exit,
}

-- What is held of the registers at one base address.
pub record Held : Type 0 where
  pub reserved : Bool
  pub mapped : Bool

-- After the calls; `none` once something is given back that is not held.
abbrev follow : ℕ → Call → Option Held → Option Held
follow base c none = none
follow base (request_mem_region b granted) (some h) =
    if b == base && granted then some (record h { reserved = true }) else some h
follow base (ioremap b granted) (some h) =
    if b == base && granted then some (record h { mapped = true }) else some h
follow base (ioread32 address) (some h) = some h
follow base (iounmap b) (some h) =
    if not (b == base)
    then some h
    else (if h.mapped then some (record h { mapped = false }) else none)
follow base (release_mem_region b) (some h) =
    if not (b == base)
    then some h
    else (if h.reserved then some (record h { reserved = false }) else none)

abbrev pub held : ℕ → List Call → Option Held
held base [] = some (record { reserved = false; mapped = false })
held base (c ∷ cs) = follow base c (held base cs)

-- The readings, if all was mapped.
abbrev is_some : Option Readings → Bool
is_some none = false
is_some (some r) = true

-- The base was mapped.
abbrev pub was_mapped : ℕ → List Call → Bool
was_mapped base [] = false
was_mapped base (ioremap b granted ∷ cs) = b == base && granted || was_mapped base cs
was_mapped base (_ ∷ cs) = was_mapped base cs

module _ (linux : Answers) where
  abbrev loaded : ((Bool × Bool × Bool) × Option Readings) × List Call
  loaded = io_memory_mapped_init linux []

  abbrev pub life : List Call
  life = (io_memory_mapped_exit loaded.0.0 loaded.1).1

  -- Given back, but for a mapping that a failed load leaves.
  abbrev pub Left : ℕ → Type 0
  Left base =
      held base life
      ≡ some
          (record { reserved = false; mapped = was_mapped base life && not (is_some loaded.0.1) })

  -- After a load and an unload no address is reserved and nothing was given back that was not held,
  -- whatever was granted. Nothing stays mapped if the load read the registers; if it did not,
  -- since a mapping failed, the mappings before it are still there.
  pub io_memory_mapped_exit_leaves :
      Left chip_id_base_addr
      × Left temperature_sensor_base_addr
      × Left ethernet_controller_base_addr
  unfolding io_memory_mapped_init io_memory_mapped_exit map_and_read read_and_unmap read_all read32
      request remap
  io_memory_mapped_exit_leaves = (ground arith, ground arith, ground arith)
