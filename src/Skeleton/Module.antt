-- ===== src/Skeleton/Module.antt =====
-- src/01-skeleton/skeleton.c, as it is built: of the labs' modules just INTERRUPT is defined.
use mse_ma_csel.Common.{
  ℕ, ◌≡◌, refl, true, none, some, List, [], ◌==◌, ◌||◌, if◌then◌else◌, Proc, ◌>>◌, pure,
}
use mse_ma_csel.Common.Int.{ℤ, pos}
use mse_ma_csel.Skeleton.Interrupt.{
  Answers, Call, switch_k1, switch_k2, switch_k3, interrupt_init, interrupt_exit,
}
use mse_ma_csel.Skeleton.Interrupt.Balance.{held, granted, nothing, interrupt_exit_balance}

unfoldable pub skeleton_init : Answers → Proc (List Call) ℤ
skeleton_init linux = do interrupt_init linux; pure (pos 0)

unfoldable pub skeleton_exit : Proc (List Call) (Unit {0})
skeleton_exit = interrupt_exit

-- Whatever the kernel refuses, a load returns 0. For each of the three switches, the unload after
-- it leaves nothing held if the pin and the interrupt were granted, and else gives back what is not
-- held.
pub skeleton_exit_balance :
    (linux : Answers) (id : ℕ)
    → (id == switch_k1 || id == switch_k2 || id == switch_k3) ≡ true
    → let (ret, loaded) = skeleton_init linux [] in
      let unloaded = (skeleton_exit loaded).1 in
      (ret ≡ pos 0) × (held id unloaded ≡ (if granted id unloaded then some nothing else none))
unfolding skeleton_init skeleton_exit
skeleton_exit_balance linux id three = (refl, interrupt_exit_balance linux id three)
