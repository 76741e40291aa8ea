-- ===== src/SysfsDevice.antt =====
-- src/02-driver/sysfs/skeleton.c: a kernel module with one attribute. The reading of a number is a
-- parameter (`simple_strtol`), as is its printing; the kernel's calls are recorded, newest first,
-- with whether they were granted, which any functions of the calls made so far may tell.
pub mod Balance
use mse_ma_csel.Common.{ℕ, Bool, List, ◌∷◌, Proc, ◌>>=◌, ◌>>◌, pure, gets, length}
use mse_ma_csel.Common.Int.{ℤ, pos}
use mse_ma_csel.Common.Text.{Bytes, Format}

pub data Call : Type 0 where
  class_create device_create device_create_file : Bool → Call
  device_remove_file device_destroy class_destroy : Call

pub record Answers : Type 0 where
  pub class_create : List Call → Bool
  pub device_create : List Call → Bool
  pub device_create_file : List Call → Bool

abbrev emit : Call → Proc (List Call) (Unit {0})
emit c cs = (tt, c ∷ cs)

-- The text that is shown of `val`.
abbrev pub sysfs_show_val : Format → ℤ → Bytes
sysfs_show_val text val = text.print_d val

-- The result, and the new `val`; `count` bytes were written.
abbrev pub sysfs_store_val : (Bytes → ℤ) → Bytes → ℤ × ℤ
sysfs_store_val simple_strtol buf = (pos (length buf), simple_strtol buf)

-- The results of the calls are not looked at, but for that of `device_create_file`, which is not
-- returned.
unfoldable pub skeleton_init : Answers → Proc (List Call) ℤ
skeleton_init linux = do
  class ← gets linux.class_create
  emit (Call.class_create class)
  device ← gets linux.device_create
  emit (Call.device_create device)
  status ← gets linux.device_create_file
  emit (Call.device_create_file status)
  pure (pos 0)

unfoldable pub skeleton_exit : Proc (List Call) (Unit {0})
skeleton_exit = do emit device_remove_file; emit device_destroy; emit class_destroy
