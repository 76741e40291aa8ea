-- ===== src/System/Sharing/Steps.antt =====
-- What one step of a thread makes of the mode and the period, if it does not change what is read.
use mse_ma_csel.Common.{
  ℕ, ◌+◌, ◌-◌, ◌%◌, ◌^◌, ◌≡◌, sym, ap, ◌∙◌, Bool, true, false, some, List, arith,
}
use mse_ma_csel.Common.Int.{ℤ, pos}
use mse_ma_csel.Common.Words.{u32}
use mse_ma_csel.Common.Text.{Format, IsFaithful}
use mse_ma_csel.Kernel.State.{Linux, Kernel, Call}
use mse_ma_csel.Kernel.Regulator.{regulator_round}
use mse_ma_csel.Kernel.Spec.{Control, control, IsUp, regulate, perform}
use mse_ma_csel.Daemon.State.{Daemon}
use mse_ma_csel.Daemon.App.{set_period, set_mode}
use mse_ma_csel.System.Link.{
  Becomes, sysfs_get_period_reads, sysfs_get_mode_reads, sysfs_set_period_writes,
  sysfs_set_mode_writes, round-Becomes,
}
use mse_ma_csel.System.Spec.{slower, faster, switched, with_mode, with_period}
use mse_ma_csel.System.Sharing.{
  Op, increase, decrease, toggle, Inside, free, entered, holding, Shared, Act, act, write_value,
}

-- An operation as a whole.
abbrev pub whole : Op → Control → Control
whole increase c = slower c
whole decrease c = faster c
whole toggle c = switched c

-- What is read is still there.
abbrev pub IsFresh : Inside → Kernel → Type 0
IsFresh free k = Unit {0}
IsFresh (entered o) k = Unit {0}
IsFresh (holding increase v) k = v ≡ k.current_period
IsFresh (holding decrease v) k = v ≡ k.current_period
IsFresh (holding toggle v) k = pos v ≡ k.current_mode

-- Whether a step may change what the thread inside has read.
abbrev pub disturbs : Act → Inside → Bool
disturbs (Act.period p) (holding increase v) = true
disturbs (Act.period p) (holding decrease v) = true
disturbs Act.round (holding increase v) = true
disturbs Act.round (holding decrease v) = true
disturbs (Act.mode m) (holding toggle v) = true
disturbs _ _ = false

module _ (linux : Linux) (text : Format) (faithful : IsFaithful text) where
  pub record Done (c : Control) (s : Shared) : Type 0 where
    pub after : Becomes c s.daemon.world
    pub fresh : IsFresh s.inside s.daemon.world

  pub get-Done :
      (o : Op) (i : Inside) (d : Daemon Kernel) (t : Shared)
      → IsUp d.world
      → act linux text (Act.get o) i d ≡ some t
      → Done (control d.world) t
  unfolding act
  get-Done increase (entered increase) d t up e =
      ground (arith, sysfs_get_period_reads linux text faithful d up)
  get-Done decrease (entered decrease) d t up e =
      ground (arith, sysfs_get_period_reads linux text faithful d up)
  get-Done toggle (entered toggle) d t up e =
      ground (arith, sysfs_get_mode_reads linux text faithful d up)
  get-Done _ _ d t up e = ground arith

  pub put-Done :
      (o : Op) (i : Inside) (d : Daemon Kernel) (t : Shared)
      → IsUp d.world
      → IsFresh i d.world
      → act linux text (Act.put o) i d ≡ some t
      → Done (whole o (control d.world)) t
  unfolding act write_value set_period set_mode
  put-Done increase (holding increase v) d t up f e =
      ground (arith, sysfs_set_period_writes linux text faithful d up ((v + 50) % 2 ^ 32))
  put-Done decrease (holding decrease v) d t up f e =
      ground (arith, sysfs_set_period_writes linux text faithful d up (v - 50))
  put-Done toggle (holding toggle v) d t up f e = ground (
    arith,
    sysfs_set_mode_writes linux text faithful d up 0,
    sysfs_set_mode_writes linux text faithful d up 1,
  )
  put-Done _ _ d t up f e = ground arith

  pub period-Done :
      (p : ℕ) (i : Inside) (d : Daemon Kernel) (t : Shared)
      → IsUp d.world
      → IsFresh i d.world
      → disturbs (Act.period p) i ≡ false
      → act linux text (Act.period p) i d ≡ some t
      → Done (with_period (p % 2 ^ 32) (control d.world)) t
  unfolding act set_period
  period-Done p (holding increase v) d t up f calm e = ground arith
  period-Done p (holding decrease v) d t up f calm e = ground arith
  period-Done p _ d t up f calm e =
      ground (arith, sysfs_set_period_writes linux text faithful d up (p % 2 ^ 32))

  pub mode-Done :
      (m : ℤ) (i : Inside) (d : Daemon Kernel) (t : Shared)
      → IsUp d.world
      → IsFresh i d.world
      → disturbs (Act.mode m) i ≡ false
      → act linux text (Act.mode m) i d ≡ some t
      → Done (with_mode (u32 m) (control d.world)) t
  unfolding act set_mode
  mode-Done m (holding toggle v) d t up f calm e = ground arith
  mode-Done m _ d t up f calm e =
      ground (arith, sysfs_set_mode_writes linux text faithful d up (u32 m))

  pub enter-Done :
      (o : Op) (i : Inside) (d : Daemon Kernel) (t : Shared)
      → IsUp d.world
      → act linux text (Act.enter o) i d ≡ some t
      → Done (control d.world) t
  unfolding act
  enter-Done o free d t up e = ground arith
  enter-Done o _ d t up e = ground arith

  perform-mode : (raw : ℕ) (c : Control) → (perform (regulate raw) c).mode ≡ c.mode
  perform-mode raw c = ground arith

  round-fresh :
      (i : Inside) (k k' : Kernel)
      → disturbs Act.round i ≡ false
      → k'.current_mode ≡ k.current_mode
      → IsFresh i k
      → IsFresh i k'
  round-fresh free k k' calm same f = tt
  round-fresh (entered o) k k' calm same f = tt
  round-fresh (holding increase v) k k' calm same f = ground arith
  round-fresh (holding decrease v) k k' calm same f = ground arith
  round-fresh (holding toggle v) k k' calm same f = f ∙ sym same

  pub round-Done :
      (i : Inside) (d : Daemon Kernel) (t : Shared)
      → IsUp d.world
      → IsFresh i d.world
      → disturbs Act.round i ≡ false
      → act linux text Act.round i d ≡ some t
      → (cs : List Call) × Done (perform (regulate (linux.ioread32 cs)) (control d.world)) t
  unfolding act
  round-Done i d t up f calm e =
      let (cs, b) = round-Becomes linux text faithful d.world up in
      let mode = perform-mode (linux.ioread32 cs) (control d.world) in
      let k' = (regulator_round linux d.world).1 in
      let fresh = round-fresh i d.world k' calm (ap (λ (c : Control). c.mode) b.now ∙ mode) f in
      let eq : record { daemon = record d { world = k' }; inside = i } ≡ t = ground arith in
      (cs, rw (← eq) (record { after = b; fresh = fresh }))
