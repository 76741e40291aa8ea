-- ===== src/Solutions/Interrupts.antt =====
-- src/solutions/02_modules/exercice08/skeleton.c: the three switches and their interrupts, where
-- the load stops at the first request that is refused.
use mse_ma_csel.Common.{
  ℕ, ◌≡◌, Bool, false, ◌&&◌, ◌||◌, some, List, [], ◌∷◌, ◌==◌, if◌then◌else◌, Proc, ◌>>=◌, ◌>>◌,
  arith,
}
use mse_ma_csel.Common.Int.{ℤ, pos, is_zero}
use mse_ma_csel.Skeleton.Interrupt.{Call, gpio_request, request_irq, Answers, exit_switch}
use mse_ma_csel.Skeleton.Interrupt.Balance.{held, nothing}

-- `K1`, `K2` and `K3`
abbrev pub k1 : ℕ
k1 = 0

abbrev pub k2 : ℕ
k2 = 2

abbrev pub k3 : ℕ
k3 = 3

-- `if (status == 0) status = ...;`
abbrev request : ℤ → (List Call → ℤ) → (ℤ → Call) → Proc (List Call) ℤ
request status answer call cs =
    if is_zero status then (answer cs, call (answer cs) ∷ cs) else (status, cs)

-- The two requests for a switch.
unfoldable pub install : Answers → ℕ → ℤ → Proc (List Call) ℤ
install linux k status = do
  status' ← request status (linux.gpio_request k) (gpio_request k)
  request status' (linux.request_irq k) (request_irq k)

unfoldable pub skeleton_init : Answers → Proc (List Call) ℤ
skeleton_init linux = do
  status ← install linux k1 (pos 0)
  status' ← install linux k2 status
  install linux k3 status'

unfoldable pub skeleton_exit : Proc (List Call) (Unit {0})
skeleton_exit = do exit_switch k1; exit_switch k2; exit_switch k3

-- Whether a pin, and an interrupt, was granted.
abbrev pub got_pin : ℕ → List Call → Bool
got_pin id [] = false
got_pin id (gpio_request n ret ∷ cs) = n == id && is_zero ret || got_pin id cs
got_pin id (_ ∷ cs) = got_pin id cs

abbrev pub got_irq : ℕ → List Call → Bool
got_irq id [] = false
got_irq id (request_irq n ret ∷ cs) = n == id && is_zero ret || got_irq id cs
got_irq id (_ ∷ cs) = got_irq id cs

-- All that was granted for a switch is held.
abbrev pub Keeps : ℕ → List Call → Type 0
Keeps id cs = held id cs ≡ some (record { pin = got_pin id cs; irq = got_irq id cs })

-- If the load returns 0, the unload leaves nothing held of any of the three switches. If it fails,
-- it gives nothing back: the pins and interrupts that were granted before the refusal stay held.
pub skeleton_init-Keeps :
    (linux : Answers)
    → let (status, cs) = skeleton_init linux [] in
      let ds = (skeleton_exit cs).1 in
      if is_zero status
      then ((held k1 ds ≡ some nothing) × (held k2 ds ≡ some nothing) × (held k3 ds ≡ some nothing))
      else (Keeps k1 cs × Keeps k2 cs × Keeps k3 cs)
unfolding skeleton_init install skeleton_exit exit_switch
skeleton_init-Keeps linux = ground arith
