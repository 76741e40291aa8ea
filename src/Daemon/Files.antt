-- ===== src/Daemon/Files.antt =====
-- src/06-mini-project/daemon/application/sysfs.c: the kernel module's files, read and written as
-- text. A temperature is a `float`, of any type `F`.
use mse_ma_csel.Common.{ℕ, Option, none, some, if◌then◌else◌, ◌>>=◌, ◌>>◌, pure, gets, when}
use mse_ma_csel.Common.Text.{Bytes, Format}
use mse_ma_csel.Daemon.State.{
  sysfs_lock, path_temperature, path_mode, path_period_st, path_period_set, Files, DaemonProc, lock,
  unlock, on_world,
}

-- A variable after `fscanf`: what was converted, or what it held before.
abbrev pub scanned : {A : Type 0} → A → Option A → A
scanned x none = x
scanned x (some a) = a

module _ {W : Type 0} (files : Files W) (text : Format) where
  unfoldable pub sysfs_get_temperature : {F : Type 0} → F → (Bytes → Option F) → DaemonProc W F
  sysfs_get_temperature zero scan_f = do
    lock sysfs_lock
    f ← gets (λ d. files.can_open path_temperature d.world)
    if f
        then (do
          buf ← on_world (files.read path_temperature)
          unlock sysfs_lock
          pure (scanned zero (scan_f buf)))
        else (do unlock sysfs_lock; pure zero)

  unfoldable pub sysfs_get_mode : DaemonProc W ℕ
  sysfs_get_mode = do
    lock sysfs_lock
    f ← gets (λ d. files.can_open path_mode d.world)
    if f
        then (do
          buf ← on_world (files.read path_mode)
          unlock sysfs_lock
          pure (scanned 0 (text.scan_u buf)))
        else (do unlock sysfs_lock; pure 0)

  unfoldable pub sysfs_set_mode : ℕ → DaemonProc W (Unit {0})
  sysfs_set_mode mode = do
    lock sysfs_lock
    f ← gets (λ d. files.can_open path_mode d.world)
    when f (on_world (files.write path_mode (text.print_u mode)))
    unlock sysfs_lock

  unfoldable pub sysfs_get_period : DaemonProc W ℕ
  sysfs_get_period = do
    lock sysfs_lock
    f ← gets (λ d. files.can_open path_period_st d.world)
    if f
        then (do
          buf ← on_world (files.read path_period_st)
          unlock sysfs_lock
          pure (scanned 0 (text.scan_u buf)))
        else (do unlock sysfs_lock; pure 0)

  unfoldable pub sysfs_set_period : ℕ → DaemonProc W (Unit {0})
  sysfs_set_period period = do
    lock sysfs_lock
    f ← gets (λ d. files.can_open path_period_set d.world)
    when f (on_world (files.write path_period_set (text.print_u period)))
    unlock sysfs_lock
