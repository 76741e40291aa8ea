-- ===== src/Kernel/Observation/States.antt =====
-- The states of the loaded module as its users see them: a mode and a period, and nothing else.
use mathlib.Core.Quot
use mathlib.Core.Quot.{Quot, Quot-set}
use std.Path.{transport}
use std.Equiv.{Iso, iso_to_equiv}
use std.Univalence.{iso_to_path, ua-β}
use mathlib.Core.HLevel.{Σ_prop_path}
use native.Mathlib.Bridge.{le_prop}
use native.Mathlib.Nat.{ℕ_set}
use mse_ma_csel.Common.{ℕ, ◌^◌, ◌<◌, ◌≡◌, refl, Bool, true, false, if◌then◌else◌, arith}
use mse_ma_csel.Common.Int.{pos, is_num}
use mse_ma_csel.Common.Words.{i32}
use mse_ma_csel.Common.Text.{Format, IsFaithful}
use mse_ma_csel.Kernel.State.{Linux, Kernel, boot, valid, module_cbs, sysfs_cbs}
use mse_ma_csel.Kernel.Spec.{control, IsUp}
use mse_ma_csel.Kernel.Observation.{Same, ReadsAlways, replies-control}

-- A loaded module in order.
abbrev pub Loaded : Type 0
Loaded = (k : Kernel) × IsUp k

abbrev pub IsPeriod : ℕ → Type 0
IsPeriod p = (0 < p) × (p < 2 ^ 32)

-- Whether the mode is automatic, and the period.
abbrev pub Setting : Type 0
Setting = Bool × ((p : ℕ) × IsPeriod p)

-- The states up to what users can tell apart.
abbrev pub Observed : Linux → Format → Type 0
Observed linux text = Quot {α = Loaded} (λ x y. Same linux text x.0 y.0)

IsPeriod-prop : (p : ℕ) → IsProp (IsPeriod p)
IsPeriod-prop p = hlevel le_prop

Setting-set : IsSet Setting
Setting-set = hlevel (le_prop, ℕ_set)

-- The setting that a state holds.
pub setting : Loaded → Setting
setting (k, up) = (
  is_num k.current_mode 1,
  (k.current_period, (up.regulated.period_positive, up.regulated.period_word)),
)

-- A module with the setting.
kernel_of : Setting → Kernel
kernel_of (auto, (p, _)) = record boot {
  temp_reg = true;
  current_mode = if auto then pos 1 else pos 0;
  current_period = p;
  blink_period_ms = i32 p;
  blink_thread = valid;
  regulator_cbs = module_cbs;
  device_cbs = sysfs_cbs;
}

kernel_of-IsUp : (s : Setting) → IsUp (kernel_of s)
unfolding kernel_of
kernel_of-IsUp (true, (p, h)) = ground arith
kernel_of-IsUp (false, (p, h)) = ground arith

Setting-ext : (s t : Setting) → s.0 ≡ t.0 → s.1.0 ≡ t.1.0 → s ≡ t
Setting-ext s t auto p = λ i. (auto i, Σ_prop_path IsPeriod-prop {u = s.1} {v = t.1} p i)

setting-ext : (x y : Loaded) → control x.0 ≡ control y.0 → setting x ≡ setting y
unfolding setting
setting-ext x y same =
    Setting-ext (setting x) (setting y) (ground (arith, same)) (ground (arith, same))

kernel_of-setting : (x : Loaded) → control (kernel_of (setting x)) ≡ control x.0
unfolding setting kernel_of
kernel_of-setting (k, up) = ground (arith, up.regulated.mode_valid)

setting-kernel_of : (s : Setting) → setting (kernel_of s, kernel_of-IsUp s) ≡ s
unfolding setting kernel_of
setting-kernel_of (true, p) = Setting-ext _ (true, p) refl refl
setting-kernel_of (false, p) = Setting-ext _ (false, p) refl refl

module _ (linux : Linux) (text : Format) (raw : ℕ) where
  module _ (faithful : IsFaithful text) (reads : ReadsAlways linux text raw) where
    observed_iso : Iso (Observed linux text) Setting
    unfolding setting kernel_of
    observed_iso =
        let equal = replies-control linux text faithful raw reads in
        record {
          fun =
              Quot.lift Setting-set setting
                (λ x y same. setting-ext x y ((equal x.0 y.0 x.1 y.1).0 same));
          inv = λ s. Quot.mk (kernel_of s, kernel_of-IsUp s);
          rinv = setting-kernel_of;
          linv =
              Quot.ind (λ q. Quot-set _ _)
                (λ x. Quot.sound (
                  (equal (kernel_of (setting x)) x.0 (kernel_of-IsUp (setting x)) x.1).1
                    (kernel_of-setting x)));
        }

    -- Where numbers read back as printed and the sensor's register does not change: the states of
    -- the loaded module in order, up to what any uses of its files and rounds of its thread show,
    -- are the pairs of a mode, manual or automatic, and a positive period of 32 bits, each state's
    -- class the pair that it holds.
    pub observed_settings :
        (e : Observed linux text ≡ Setting) × ((x : Loaded) → transport e (Quot.mk x) ≡ setting x)
    unfolding observed_iso
    observed_settings =
        (iso_to_path observed_iso, λ x. ua-β (iso_to_equiv observed_iso) (Quot.mk x))
