-- ===== src/Skeleton/Interrupt.antt =====
-- src/01-skeleton/kernel-module/s02e08-interrupt.c: the three switches and their interrupts. The
-- kernel's calls are recorded, newest first, with their answers, which any functions of the calls
-- made so far may give.
pub mod Balance
use mse_ma_csel.Common.{ℕ, Bool, List, ◌∷◌, Proc, ◌>>◌, ◌>>=◌, pure, gets, when, skip}
use mse_ma_csel.Common.Int.{ℤ, is_zero}

pub data Call : Type 0 where
  gpio_request request_irq : ℕ → ℤ → Call
  gpio_free free_irq : ℕ → Call

-- The answers of `gpio_request` and `request_irq`, by pin.
pub record Answers : Type 0 where
  pub gpio_request : ℕ → List Call → ℤ
  pub request_irq : ℕ → List Call → ℤ

abbrev emit : Call → Proc (List Call) (Unit {0})
emit c cs = (tt, c ∷ cs)

-- `switchK1`, `switchK2` and `switchK3`, by `id`.
abbrev pub switch_k1 : ℕ
switch_k1 = 0

abbrev pub switch_k2 : ℕ
switch_k2 = 2

abbrev pub switch_k3 : ℕ
switch_k3 = 3

-- A switch of `interrupt_init`, which looks at the first answer only.
unfoldable pub init_switch : Answers → ℕ → Proc (List Call) (Unit {0})
init_switch linux id = do
  granted ← gets (linux.gpio_request id)
  emit (Call.gpio_request id granted)
  when (is_zero granted)
      (do status ← gets (linux.request_irq id); emit (Call.request_irq id status))

unfoldable pub interrupt_init : Answers → Proc (List Call) (Unit {0})
interrupt_init linux = do
  init_switch linux switch_k1
  init_switch linux switch_k2
  init_switch linux switch_k3

-- A switch of `interrupt_exit`.
unfoldable pub exit_switch : ℕ → Proc (List Call) (Unit {0})
exit_switch id = do emit (gpio_free id); emit (free_irq id)

unfoldable pub interrupt_exit : Proc (List Call) (Unit {0})
interrupt_exit = do exit_switch switch_k1; exit_switch switch_k2; exit_switch switch_k3
