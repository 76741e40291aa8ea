-- ===== src/System/Link.antt =====
-- The daemon's operations on the kernel's variables.
use mse_ma_csel.Common.{ℕ, ◌^◌, ◌<◌, ◌≡◌, List, if◌then◌else◌, leb, arith}
use mse_ma_csel.Common.Int.{pos}
use mse_ma_csel.Common.Text.{Format, IsFaithful}
use mse_ma_csel.Kernel.State.{Linux, Kernel, Call}
use mse_ma_csel.Kernel.Regulator.{regulator_round}
use mse_ma_csel.Kernel.Entries.{Entry, enter}
use mse_ma_csel.Kernel.Spec.{regulate, perform}
use mse_ma_csel.Kernel.Refinement.{entry-Answers}
use mse_ma_csel.Kernel.Callbacks.{cb_get_mode, cb_set_mode, cb_get_period, cb_set_period}
use mse_ma_csel.Kernel.Sysfs.{mode_show, mode_store, period_status_show, period_set_store}
pub use mse_ma_csel.Kernel.Spec.{Control, control, IsUp, accepted}
use mse_ma_csel.Daemon.State.{Daemon}
use mse_ma_csel.Daemon.Files.{sysfs_get_mode, sysfs_set_mode, sysfs_get_period, sysfs_set_period}
use mse_ma_csel.System.{files}

-- A kernel after an operation: up, and with the control that is given.
pub record Becomes (c : Control) (k : Kernel) : Type 0 where
  pub up : IsUp k
  pub now : control k ≡ c

module _ (linux : Linux) (text : Format) (faithful : IsFaithful text) (d : Daemon Kernel)
    (up : IsUp d.world) where
  pub sysfs_get_period_reads :
      let (p, d') = sysfs_get_period (files linux text) text d in
      (p ≡ d.world.current_period) × Becomes (control d.world) d'.world
  unfolding sysfs_get_period period_status_show cb_get_period
  sysfs_get_period_reads =
      let back = faithful.scan_back d.world.current_period up.regulated.period_word in
      ground (arith, back)

  pub sysfs_get_mode_reads :
      let (m, d') = sysfs_get_mode (files linux text) text d in
      (pos m ≡ d.world.current_mode) × Becomes (control d.world) d'.world
  unfolding sysfs_get_mode mode_show cb_get_mode
  sysfs_get_mode_reads =
      ground (arith, faithful.scan_int 0 (omega arith), faithful.scan_int 1 (omega arith))

  -- A period that is written takes effect in manual mode, if it is positive, and else has none.
  pub sysfs_set_period_writes :
      (p : ℕ)
      → p < 2 ^ 32
      → Becomes
          (record (control d.world) {
            period = accepted d.world.current_mode p d.world.current_period;
          })
          (sysfs_set_period (files linux text) text p d).1.world
  unfolding sysfs_set_period period_set_store cb_set_period
  sysfs_set_period_writes p w = ground (arith, faithful.uint_back p w)

  -- A mode that is written takes effect if it is 0 or 1, and else has none.
  pub sysfs_set_mode_writes :
      (m : ℕ)
      → Becomes
          (record (control d.world) { mode = if leb m 1 then pos m else d.world.current_mode })
          (sysfs_set_mode (files linux text) text m d).1.world
  unfolding sysfs_set_mode mode_store cb_set_mode
  sysfs_set_mode_writes m = ground (arith, faithful.int_back m, faithful.int_range m)

-- A round of the thread goes by some value of the sensor's register.
pub round-Becomes :
    (linux : Linux) (text : Format)
    → IsFaithful text
    → (k : Kernel) → IsUp k
    → (cs : List Call) × Becomes
        (perform (regulate (linux.ioread32 cs)) (control k))
        (regulator_round linux k).1
unfolding enter
round-Becomes linux text faithful k up =
    let (cs, _, done, still) = entry-Answers linux text faithful Entry.round k up in
    (cs, record { up = still; now = done })
