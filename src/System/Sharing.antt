-- ===== src/System/Sharing.antt =====
-- src/06-mini-project/daemon/application/app.c, when several threads use it: `app_lock` is held
-- from the read to the write of an increase, a decrease and a switch of the mode, but `set_period`
-- and `set_mode`, which the messages call, do not take it, and neither does the kernel's thread.
pub mod Steps
pub mod Serial
pub mod Counted
pub mod LostUpdate
use mse_ma_csel.Common.{
  ℕ, ◌+◌, ◌-◌, ◌%◌, ◌^◌, ◌≡◌, refl, Option, none, some, List, [], ◌∷◌, ltb, ◌>>=◌, ◌>>◌, when,
}
use mse_ma_csel.Common.Int.{ℤ}
use mse_ma_csel.Common.Words.{i32}
use mse_ma_csel.Common.Text.{Format}
use mse_ma_csel.Kernel.State.{Linux, Kernel}
use mse_ma_csel.Kernel.Regulator.{regulator_round}
use mse_ma_csel.Daemon.State.{app_lock, Files, Daemon, DaemonProc, lock, unlock}
use mse_ma_csel.Daemon.Files.{sysfs_get_mode, sysfs_get_period}
use mse_ma_csel.Daemon.App.{
  gap_period_ms, xor_one, set_period, increase_period, decrease_period, set_mode, mode_toggle,
}
use mse_ma_csel.System.{files}

-- The operations that take `app_lock`.
pub data Op : Type 0 where
  increase decrease toggle : Op

-- The thread that holds `app_lock`: before its read, or with what it read.
pub data Inside : Type 0 where
  free : Inside
  entered : Op → Inside
  holding : Op → ℕ → Inside

pub record Shared : Type 0 where
  pub daemon : Daemon Kernel
  pub inside : Inside

-- A step of one thread; a call of `set_period` or `set_mode`; a round of the kernel's thread.
pub data Act : Type 0 where
  enter get put : Op → Act
  period : ℕ → Act
  mode : ℤ → Act
  round : Act

module _ {W : Type 0} (files : Files W) (text : Format) where
  abbrev pub read_value : Op → DaemonProc W ℕ
  read_value increase = sysfs_get_period files text
  read_value decrease = sysfs_get_period files text
  read_value toggle = sysfs_get_mode files text

  -- From the value that was read to the end.
  unfoldable pub write_value : Op → ℕ → DaemonProc W (Unit {0})
  write_value increase v = do set_period files text ((v + gap_period_ms) % 2 ^ 32); unlock app_lock
  write_value decrease v = do
    when (ltb gap_period_ms v) (set_period files text (v - gap_period_ms))
    unlock app_lock
  write_value toggle v = do set_mode files text (xor_one (i32 v)); unlock app_lock

  abbrev pub operation : Op → DaemonProc W (Unit {0})
  operation increase = increase_period files text
  operation decrease = decrease_period files text
  operation toggle = mode_toggle files text

  -- The steps one after another are the operation.
  operation-steps :
      (o : Op) (d : Daemon W)
      → operation o d ≡ (do lock app_lock; v ← read_value o; write_value o v) d
  unfolding write_value increase_period decrease_period mode_toggle
  operation-steps increase d = refl
  operation-steps decrease d = refl
  operation-steps toggle d = refl

module _ (linux : Linux) (text : Format) where
  -- `none` where the step is not the next one of the thread that holds the mutex, or the thread has
  -- to wait for it.
  unfoldable pub act : Act → Inside → Daemon Kernel → Option Shared
  act (enter o) free d = some (record { daemon = (lock app_lock d).1; inside = entered o })
  act (get increase) (entered increase) d =
      let (v, d') = read_value (files linux text) text increase d in
      some (record { daemon = d'; inside = holding increase v })
  act (get decrease) (entered decrease) d =
      let (v, d') = read_value (files linux text) text decrease d in
      some (record { daemon = d'; inside = holding decrease v })
  act (get toggle) (entered toggle) d =
      let (v, d') = read_value (files linux text) text toggle d in
      some (record { daemon = d'; inside = holding toggle v })
  act (put increase) (holding increase v) d =
      some (record { daemon = (write_value (files linux text) text increase v d).1; inside = free })
  act (put decrease) (holding decrease v) d =
      some (record { daemon = (write_value (files linux text) text decrease v d).1; inside = free })
  act (put toggle) (holding toggle v) d =
      some (record { daemon = (write_value (files linux text) text toggle v d).1; inside = free })
  act (period p) i d =
      some (record { daemon = (set_period (files linux text) text (p % 2 ^ 32) d).1; inside = i })
  act (mode m) i d = some (record { daemon = (set_mode (files linux text) text m d).1; inside = i })
  act round i d =
      some (record { daemon = record d { world = (regulator_round linux d.world).1 }; inside = i })
  act _ _ d = none

  abbrev pub acts : List Act → Option Shared → Option Shared
  acts [] s = s
  acts (a ∷ rest) none = none
  acts (a ∷ rest) (some s) = acts rest (act a s.inside s.daemon)
