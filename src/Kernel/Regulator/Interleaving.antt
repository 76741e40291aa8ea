-- ===== src/Kernel/Regulator/Interleaving.antt =====
-- The regulator's thread beside the sysfs handlers. Each critical section of `regulator_lock` is
-- one step; between two steps of the thread any handler may run.
use mse_ma_csel.Common.{ℕ, ◌/◌, ◌^◌, ◌<◌, ◌≡◌, true, false, arith}
use mse_ma_csel.Common.Int.{ℤ, pos, is_num}
use mse_ma_csel.Kernel.State.{Linux, Kernel}
use mse_ma_csel.Kernel.Temp.{read_temp}
use mse_ma_csel.Kernel.Callbacks.{cb_set_mode, cb_set_period, regulator_get_temperature}
use mse_ma_csel.Kernel.Regulator.{auto_period, apply_auto, read_mode}
use mse_ma_csel.Kernel.Regulator.Invariant.{
  IsRegulated, cb_set_mode-IsRegulated, cb_set_period-IsRegulated, apply_auto-IsRegulated,
}

-- Where the thread is: before the test of the mode, past it, or with a temperature at hand.
pub data Pc : Type 0 where
  idle checked : Pc
  measured : ℕ → Pc

pub data Step (linux : Linux) : Kernel → Pc → Kernel → Pc → Type 0 where
  look : {k : Kernel} → is_num (read_mode k).0 1 ≡ true → Step linux k idle (read_mode k).1 checked
  rest : {k : Kernel} → is_num (read_mode k).0 1 ≡ false → Step linux k idle (read_mode k).1 idle
  measure :
      {k : Kernel}
      → Step linux k checked
          (regulator_get_temperature linux k).1
          (measured (regulator_get_temperature linux k).0)
  apply : {k : Kernel} (t : ℕ) → Step linux k (measured t) (apply_auto t k).1 idle
  set_mode : {k : Kernel} {pc : Pc} (m : ℤ) → Step linux k pc (cb_set_mode m k).1 pc
  set_period :
      {k : Kernel} {pc : Pc} (p : ℕ) → p < 2 ^ 32 → Step linux k pc (cb_set_period p k).1 pc

pub data Reach (linux : Linux) (k : Kernel) (pc : Pc) : Kernel → Pc → Type 0 where
  here : Reach linux k pc k pc
  next :
      {k' k'' : Kernel} {pc' pc'' : Pc}
      → Reach linux k pc k' pc'
      → Step linux k' pc' k'' pc''
      → Reach linux k pc k'' pc''

read_mode-IsRegulated : (k : Kernel) → IsRegulated k → IsRegulated (read_mode k).1
unfolding read_mode
read_mode-IsRegulated k h = ground arith

regulator_get_temperature-IsRegulated :
    (linux : Linux) (k : Kernel) → IsRegulated k → IsRegulated (regulator_get_temperature linux k).1
unfolding regulator_get_temperature read_temp
regulator_get_temperature-IsRegulated linux k h = ground arith

Step-IsRegulated :
    {linux : Linux} {k k' : Kernel} {pc pc' : Pc}
    → Step linux k pc k' pc'
    → IsRegulated k
    → IsRegulated k'
Step-IsRegulated (look {k = k} e) h = read_mode-IsRegulated k h
Step-IsRegulated (rest {k = k} e) h = read_mode-IsRegulated k h
Step-IsRegulated {linux} (measure {k = k}) h = regulator_get_temperature-IsRegulated linux k h
Step-IsRegulated (apply {k = k} t) h = apply_auto-IsRegulated t k h
Step-IsRegulated (set_mode {k = k} m) h = cb_set_mode-IsRegulated m k h
Step-IsRegulated (set_period {k = k} p w) h = cb_set_period-IsRegulated p k w h

-- However the thread's critical sections and the handlers interleave, from a state in order: the
-- mode is manual or automatic, the period is positive, fits its type and is the LED's, and no
-- NULL callback was called.
pub Reach-IsRegulated :
    {linux : Linux} {k : Kernel} {pc : Pc} {k' : Kernel} {pc' : Pc}
    → IsRegulated k
    → Reach linux k pc k' pc'
    → IsRegulated k'
Reach-IsRegulated h here = h
Reach-IsRegulated h (next r s) = Step-IsRegulated s (Reach-IsRegulated h r)

stale_period :
    (t p : ℕ) (k : Kernel)
    → 0 < p
    → let before = (cb_set_period p (cb_set_mode (pos 0) k).1).1 in
      (before.current_mode ≡ pos 0)
      × (before.current_period ≡ p)
      × ((apply_auto t before).1.current_mode ≡ pos 0)
      × ((apply_auto t before).1.current_period ≡ auto_period (t / 1000))
unfolding cb_set_mode cb_set_period apply_auto
stale_period t p k h = ground arith

-- The mode is tested before the temperature is read, and not again. From any state in which the
-- thread holds a temperature: the handlers that switch to manual mode and then set a period `p`,
-- which is positive and fits its type, run before the thread's next step and leave manual mode with
-- the period `p`; and the thread's next step from there leaves manual mode with the automatic
-- period of the old temperature, in the place of `p`.
pub stale_round_overrides :
    (linux : Linux) (t p : ℕ) (k : Kernel)
    → 0 < p
    → p < 2 ^ 32
    → let manual = (cb_set_period p (cb_set_mode (pos 0) k).1).1 in
      let after = (apply_auto t manual).1 in
      Reach linux k (measured t) manual (measured t)
      × (manual.current_mode ≡ pos 0)
      × (manual.current_period ≡ p)
      × Step linux manual (measured t) after idle
      × (after.current_mode ≡ pos 0)
      × (after.current_period ≡ auto_period (t / 1000))
stale_round_overrides linux t p k h w =
    let (mode, period, kept, auto) = stale_period t p k h in
    (next (next here (set_mode (pos 0))) (set_period p w), mode, period, apply t, kept, auto)
