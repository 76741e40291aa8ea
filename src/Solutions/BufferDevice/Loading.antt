-- ===== src/Solutions/BufferDevice/Loading.antt =====
-- Loading and unloading of src/solutions/03_drivers/exercice02/skeleton.c, by the rules of
-- CharDevice/Loading.
use mse_ma_csel.Common.{
  ◌≡◌, Bool, false, [], none, some, List, ◌∷◌, if◌then◌else◌, ◌>>=◌, ◌>>◌, pure, gets, when, arith,
}
use mse_ma_csel.Common.Int.{ℤ, pos, is_zero}
use mse_ma_csel.CharDevice.Loading.{
  Call, cdev_init, cdev_del, unregister_chrdev_region, Answers, Loader, nothing, held,
}

abbrev emit : Call → Loader (Unit {0})
emit c cs = (tt, c ∷ cs)

-- The result of `cdev_add` is not looked at.
unfoldable pub skeleton_init : Answers → Loader ℤ
skeleton_init os = do
  status ← gets os.alloc_chrdev_region
  emit (Call.alloc_chrdev_region status)
  when (is_zero status) (do emit cdev_init; status ← gets os.cdev_add; emit (Call.cdev_add status))
  pure (pos 0)

unfoldable pub skeleton_exit : Loader (Unit {0})
skeleton_exit = do emit cdev_del; emit unregister_chrdev_region

-- Whether the numbers and the device are granted.
abbrev pub all_granted : List Call → Bool
all_granted [] = false
all_granted (Call.cdev_add status ∷ cs) = is_zero status
all_granted (_ ∷ cs) = all_granted cs

-- Whatever the kernel refuses, the load returns 0. If the numbers and the device were granted, the
-- unload leaves nothing held, and else it gives back what is not held.
pub skeleton_exit_gives :
    (os : Answers)
    → let (ret, loaded) = skeleton_init os [] in
      (ret ≡ pos 0)
      × (held (skeleton_exit loaded).1 ≡ (if all_granted loaded then some nothing else none))
unfolding skeleton_init skeleton_exit
skeleton_exit_gives os = ground arith
