-- ===== src/System/Sharing/Counted.antt =====
-- Increases from several threads at once: none is lost.
use mse_ma_csel.Common.{
  ℕ, suc, ◌+◌, ◌*◌, ◌^◌, ◌<◌, ◌≡◌, ap, Bool, true, false, ◌&&◌, Option, none, some, List, [], ◌∷◌,
  arith,
}
use mse_ma_csel.Common.Int.{pos}
use mse_ma_csel.Common.Text.{Format, IsFaithful}
use mse_ma_csel.Kernel.State.{Linux, Kernel}
use mse_ma_csel.Kernel.Spec.{Control, control, IsUp}
use mse_ma_csel.Daemon.State.{Daemon}
use mse_ma_csel.System.Spec.{slower}
use mse_ma_csel.System.Sharing.{increase, free, Shared, Act, enter, get, put, act, acts}
use mse_ma_csel.System.Sharing.Serial.{Serial, Undisturbed, acts-Serial}

-- A step of an increase.
abbrev pub is_increase : Act → Bool
is_increase (enter increase) = true
is_increase (get increase) = true
is_increase (put increase) = true
is_increase _ = false

abbrev pub all_increase : List Act → Bool
all_increase [] = true
all_increase (a ∷ more) = is_increase a && all_increase more

-- How many increases come to their end.
abbrev pub finished : List Act → ℕ
finished [] = 0
finished (put o ∷ more) = suc (finished more)
finished (_ ∷ more) = finished more

module _ (linux : Linux) (text : Format) where
  all_increase-Undisturbed :
      (more : List Act) (s : Option Shared)
      → all_increase more ≡ true
      → Undisturbed linux text more s
  all_increase-Undisturbed [] s h = tt
  all_increase-Undisturbed (a ∷ more) none h = tt
  all_increase-Undisturbed (a ∷ more) (some s) h = (
    ground arith,
    all_increase-Undisturbed more (act linux text a s.inside s.daemon) (ground arith),
  )

  Serial-counted :
      (more : List Act) (c c' : Control)
      → all_increase more ≡ true
      → c.mode ≡ pos 0
      → c.period + 50 * finished more < 2 ^ 32
      → 0 < c.period
      → Serial linux text more c c'
      → c'.period ≡ c.period + 50 * finished more
  Serial-counted [] c c' h manual small positive s = omega (arith, ap (λ (d : Control). d.period) s)
  Serial-counted (enter increase ∷ more) c c' h manual small positive s =
      Serial-counted more c c' (ground arith) manual small positive s
  Serial-counted (get increase ∷ more) c c' h manual small positive s =
      Serial-counted more c c' (ground arith) manual small positive s
  Serial-counted (put increase ∷ more) c c' h manual small positive s =
      let up : (slower c).period ≡ c.period + 50 = ground arith in
      let rest =
        Serial-counted more (slower c) c' (ground arith) manual (omega (arith, up))
          (omega (arith, up)) s in
      omega (arith, rest, up)
  Serial-counted _ c c' h manual small positive s = ground arith

-- Over a loaded module in order, in manual mode, and where numbers read back as printed: whatever
-- steps of increases threads have made, in any order that `app_lock` allows, from a time when no
-- thread was inside, the period is 50 more for each increase that came to its end, as long as that
-- fits 32 bits. None is lost.
pub increases_counted :
    (linux : Linux) (text : Format)
    → IsFaithful text
    → (more : List Act) (d : Daemon Kernel) (t : Shared) → IsUp d.world
    → d.world.current_mode ≡ pos 0
    → d.world.current_period + 50 * finished more < 2 ^ 32
    → all_increase more ≡ true
    → acts linux text more (some (record { daemon = d; inside = free })) ≡ some t
    → t.daemon.world.current_period ≡ d.world.current_period + 50 * finished more
increases_counted linux text faithful more d t up manual small only e =
    let s : Shared = record { daemon = d; inside = free } in
    Serial-counted linux text more (control d.world) (control t.daemon.world) only manual small
      up.regulated.period_positive
      (acts-Serial linux text faithful more s t up tt
        (all_increase-Undisturbed linux text more (some s) only) e)
