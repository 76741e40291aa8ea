-- ===== src/System/Sharing/Serial.antt =====
-- Any interleaving of the operations, in which nothing changes what a thread has read until it
-- writes, is the operations one after another.
use mse_ma_csel.Common.{
  ◌%◌, ◌^◌, ◌≡◌, ap, false, inl, inr, Option-cases, Option, none, some, List, [], ◌∷◌, arith,
}
use mse_ma_csel.Common.Words.{u32}
use mse_ma_csel.Common.Text.{Format, IsFaithful}
use mse_ma_csel.Kernel.State.{Linux, Kernel, Call}
use mse_ma_csel.Kernel.Spec.{Control, control, IsUp, regulate, perform}
use mse_ma_csel.Daemon.State.{Daemon}
use mse_ma_csel.System.Spec.{with_mode, with_period}
use mse_ma_csel.System.Sharing.{Inside, Shared, Act, act, acts}
use mse_ma_csel.System.Sharing.Steps.{
  whole, IsFresh, disturbs, Done, enter-Done, get-Done, put-Done, period-Done, mode-Done,
  round-Done,
}

module _ (linux : Linux) (text : Format) where
  -- From `c` to `c'`, each operation at its write; a round goes by some value of the sensor's
  -- register.
  abbrev pub Serial : List Act → Control → Control → Type 0
  Serial [] c c' = c ≡ c'
  Serial (Act.enter o ∷ more) c c' = Serial more c c'
  Serial (Act.get o ∷ more) c c' = Serial more c c'
  Serial (Act.put o ∷ more) c c' = Serial more (whole o c) c'
  Serial (Act.period p ∷ more) c c' = Serial more (with_period (p % 2 ^ 32) c) c'
  Serial (Act.mode m ∷ more) c c' = Serial more (with_mode (u32 m) c) c'
  Serial (Act.round ∷ more) c c' =
      (cs : List Call) × Serial more (perform (regulate (linux.ioread32 cs)) c) c'

  -- No step of the run changes what a thread has read and not yet written.
  abbrev pub Undisturbed : List Act → Option Shared → Type 0
  Undisturbed [] s = Unit {0}
  Undisturbed (a ∷ more) none = Unit {0}
  Undisturbed (a ∷ more) (some s) =
      (disturbs a s.inside ≡ false) × Undisturbed more (act linux text a s.inside s.daemon)

  module _ (faithful : IsFaithful text) where
    acts-none : (more : List Act) (t : Shared) → acts linux text more none ≡ some t → ⊥
    acts-none [] t e = ground arith
    acts-none (a ∷ more) t e = ground arith

    -- A step, before the rest of a run.
    record Stepped (a : Act) (c : Control) (s : Shared) : Type 0 where
      up : IsUp s.daemon.world
      fresh : IsFresh s.inside s.daemon.world
      before :
          (more : List Act) (c' : Control)
          → Serial more (control s.daemon.world) c'
          → Serial (a ∷ more) c c'

    -- To leave the abstract control of a step for the kernel's.
    Serial-from :
        {c : Control} {s : Shared}
        → Done linux text faithful c s
        → (more : List Act) (c' : Control) → Serial more (control s.daemon.world) c'
        → Serial more c c'
    Serial-from done more c' rest = rw (← done.after.now) rest

    act-Stepped :
        (a : Act) (i : Inside) (d : Daemon Kernel) (t : Shared)
        → IsUp d.world
        → IsFresh i d.world
        → disturbs a i ≡ false
        → act linux text a i d ≡ some t
        → Stepped a (control d.world) t
    act-Stepped (Act.enter o) i d t up f calm e =
        let done = enter-Done linux text faithful o i d t up e in
        record { up = done.after.up; fresh = done.fresh; before = Serial-from done }
    act-Stepped (Act.get o) i d t up f calm e =
        let done = get-Done linux text faithful o i d t up e in
        record { up = done.after.up; fresh = done.fresh; before = Serial-from done }
    act-Stepped (Act.put o) i d t up f calm e =
        let done = put-Done linux text faithful o i d t up f e in
        record { up = done.after.up; fresh = done.fresh; before = Serial-from done }
    act-Stepped (Act.period p) i d t up f calm e =
        let done = period-Done linux text faithful p i d t up f calm e in
        record { up = done.after.up; fresh = done.fresh; before = Serial-from done }
    act-Stepped (Act.mode m) i d t up f calm e =
        let done = mode-Done linux text faithful m i d t up f calm e in
        record { up = done.after.up; fresh = done.fresh; before = Serial-from done }
    act-Stepped Act.round i d t up f calm e =
        let (cs, done) = round-Done linux text faithful i d t up f calm e in
        record {
          up = done.after.up;
          fresh = done.fresh;
          before = λ more c' rest. (cs, Serial-from done more c' rest);
        }

    pub acts-Serial :
        (more : List Act) (s t : Shared)
        → IsUp s.daemon.world
        → IsFresh s.inside s.daemon.world
        → Undisturbed more (some s)
        → acts linux text more (some s) ≡ some t
        → Serial more (control s.daemon.world) (control t.daemon.world)
    acts-Serial [] s t up f u e =
        let eq : s ≡ t = ground arith in ap (λ (x : Shared). control x.daemon.world) eq
    acts-Serial (a ∷ more) s t up f (calm, u) e =
        elim (Option-cases (act linux text a s.inside s.daemon)) [
          | inl stuck ↦ absurd (acts-none more t (rw stuck at e))
          | inr (s', moved) ↦
              let step = act-Stepped a s.inside s.daemon s' up f calm moved in
              step.before more (control t.daemon.world)
                (acts-Serial more s' t step.up step.fresh (rw moved at u) (rw moved at e))
        ]
