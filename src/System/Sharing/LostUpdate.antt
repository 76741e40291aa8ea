-- ===== src/System/Sharing/LostUpdate.antt =====
-- A period that a message sets while a button's increase is between its read and its write.
use mse_ma_csel.Common.{ℕ, ◌+◌, ◌%◌, ◌^◌, ◌<◌, ◌≡◌, ◌≢◌, refl, some, [], ◌∷◌, arith}
use mse_ma_csel.Common.Int.{pos}
use mse_ma_csel.Common.Text.{Format, IsFaithful}
use mse_ma_csel.Kernel.State.{Linux, Kernel}
use mse_ma_csel.Kernel.Spec.{control, IsUp}
use mse_ma_csel.Daemon.State.{app_lock, Daemon, mutex_lock}
use mse_ma_csel.Daemon.App.{set_period}
use mse_ma_csel.Daemon.Files.{sysfs_get_period}
use mse_ma_csel.System.{files}
use mse_ma_csel.System.Link.{sysfs_get_period_reads, sysfs_set_period_writes}
use mse_ma_csel.System.Spec.{slower, with_period}
use mse_ma_csel.System.Sharing.{
  increase, free, Shared, enter, get, put, period, act, acts, write_value,
}

-- Over a loaded module in order, in manual mode, and where numbers read back as printed: while an
-- increase of a period below 2 ^ 32 - 50 is between its read and its write, a message sets a period
-- that is positive, below 2 ^ 32 - 50, and neither the old one nor 50 more. It is lost: the period
-- ends at 50 more than it was before, where neither order of the two as wholes ends.
pub set_period_lost :
    (linux : Linux) (text : Format)
    → IsFaithful text
    → (d : Daemon Kernel) (p : ℕ) → IsUp d.world
    → d.world.current_mode ≡ pos 0
    → d.world.current_period + 50 < 2 ^ 32
    → 0 < p
    → p + 50 < 2 ^ 32
    → p ≢ d.world.current_period
    → p ≢ d.world.current_period + 50
    → (t : Shared) × (acts linux text
          (enter increase ∷ get increase ∷ period p ∷ put increase ∷ [])
          (some (record { daemon = d; inside = free }))
        ≡ some t)
      × (t.daemon.world.current_period ≡ d.world.current_period + 50)
      × ((slower (with_period p (control d.world))).period ≢ t.daemon.world.current_period)
      × ((with_period p (slower (control d.world))).period ≢ t.daemon.world.current_period)
unfolding act write_value set_period
set_period_lost linux text faithful d p up manual small positive word other other' =
    let d₁ : Daemon Kernel = record d { locks = mutex_lock app_lock ∷ d.locks } in
    let read = sysfs_get_period_reads linux text faithful d₁ up in
    let (v, d₂) = sysfs_get_period (files linux text) text d₁ in
    let set = sysfs_set_period_writes linux text faithful d₂ read.1.up (p % 2 ^ 32) (omega arith) in
    let d₃ = (set_period (files linux text) text (p % 2 ^ 32) d₂).1 in
    let last =
      sysfs_set_period_writes linux text faithful d₃ set.up ((v + 50) % 2 ^ 32) (omega arith) in
    let final : (write_value (files linux text) text increase v d₃).1.world.current_period
        ≡ d.world.current_period + 50 =
      ground (arith, read, set, last) in
    (
      record { daemon = (write_value (files linux text) text increase v d₃).1; inside = free },
      refl,
      final,
      ground (arith, final),
      ground (arith, final),
    )
