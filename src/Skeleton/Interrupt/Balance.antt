-- ===== src/Skeleton/Interrupt/Balance.antt =====
-- What the load takes, the unload gives back: if all was granted, and only then.
use mse_ma_csel.Common.{
  ℕ, ◌≡◌, ◌⊎◌, refl, Bool, true, false, not, ◌&&◌, ◌||◌, Option, none, some, List, [], ◌∷◌, ◌==◌,
  if◌then◌else◌, Proc, ◌>>◌, skip, arith,
}
use mse_ma_csel.Common.Int.{is_zero}
use mse_ma_csel.Skeleton.Interrupt.{
  Call, gpio_request, request_irq, gpio_free, free_irq, Answers, init_switch, interrupt_init,
  exit_switch, interrupt_exit, switch_k1, switch_k2, switch_k3,
}

-- What is held of a switch: its pin and its interrupt.
pub record Held : Type 0 where
  pub pin : Bool
  pub irq : Bool

abbrev pub nothing : Held
nothing = record { pin = false; irq = false }

-- What is held of a switch after the calls; `none` once something is given back that is not held.
abbrev pub follow : ℕ → Call → Option Held → Option Held
follow id c none = none
follow id (gpio_request n ret) (some h) =
    if n == id && is_zero ret then some (record h { pin = true }) else some h
follow id (request_irq n ret) (some h) =
    if n == id && is_zero ret then some (record h { irq = true }) else some h
follow id (gpio_free n) (some h) =
    if not (n == id) then some h else (if h.pin then some (record h { pin = false }) else none)
follow id (free_irq n) (some h) =
    if not (n == id) then some h else (if h.irq then some (record h { irq = false }) else none)

abbrev pub held : ℕ → List Call → Option Held
held id [] = some nothing
held id (c ∷ cs) = follow id c (held id cs)

-- Both requests for a switch were granted: its interrupt is asked for only with its pin at hand.
abbrev pub granted : ℕ → List Call → Bool
granted id [] = false
granted id (request_irq n ret ∷ cs) = n == id && is_zero ret || granted id cs
granted id (_ ∷ cs) = granted id cs

-- What is held of a switch goes with whether it was granted.
abbrev Fits : ℕ → List Call → Type 0
Fits id cs =
    ((held id cs ≡ some (record { pin = true; irq = true })) × (granted id cs ≡ true))
    ⊎ ((held id cs ≡ some (record { pin = true; irq = false })) × (granted id cs ≡ false))
    ⊎ ((held id cs ≡ some nothing) × (granted id cs ≡ false))

-- What is held after the unload.
abbrev Given : ℕ → List Call → Type 0
Given id cs = held id cs ≡ (if granted id cs then some nothing else none)

record IsSame (id : ℕ) (cs ds : List Call) : Type 0 where
  holds : held id ds ≡ held id cs
  grants : granted id ds ≡ granted id cs

module _ (linux : Answers) where
  init_other :
      (n id : ℕ) (cs : List Call) → n == id ≡ false → IsSame id cs (init_switch linux n cs).1
  unfolding init_switch
  init_other n id cs ne = ground arith

  init_own :
      (id : ℕ) (cs : List Call)
      → held id cs ≡ some nothing
      → granted id cs ≡ false
      → Fits id (init_switch linux id cs).1
  unfolding init_switch
  init_own id cs none_held none_granted = ground arith

exit_other : (n id : ℕ) (cs : List Call) → n == id ≡ false → IsSame id cs (exit_switch n cs).1
unfolding exit_switch
exit_other n id cs ne = ground arith

exit_own : (id : ℕ) (cs : List Call) → Fits id cs → Given id (exit_switch id cs).1
unfolding exit_switch
exit_own id cs h = ground arith

abbrev absent : ℕ → List ℕ → Bool
absent id [] = true
absent id (n ∷ ns) = not (n == id) && absent id ns

-- The switch is there once.
abbrev once : ℕ → List ℕ → Bool
once id [] = false
once id (n ∷ ns) = if n == id then absent id ns else once id ns

abbrev init_all : Answers → List ℕ → Proc (List Call) (Unit {0})
init_all linux [] = skip
init_all linux (n ∷ ns) = do init_switch linux n; init_all linux ns

abbrev exit_all : List ℕ → Proc (List Call) (Unit {0})
exit_all [] = skip
exit_all (n ∷ ns) = do exit_switch n; exit_all ns

-- The calls of a load and an unload.
abbrev pub life : Answers → List Call
life linux = (interrupt_exit (interrupt_init linux []).1).1

module _ (linux : Answers) (id : ℕ) where
  init_all-absent :
      (ns : List ℕ) (cs : List Call) → absent id ns ≡ true → IsSame id cs (init_all linux ns cs).1
  init_all-absent [] cs h = record { holds = refl; grants = refl }
  init_all-absent (n ∷ ns) cs h =
      let a = (init_switch linux n cs).1 in
      ground (arith, init_other linux n id cs, init_all-absent ns a)

  init_all-once :
      (ns : List ℕ) (cs : List Call)
      → once id ns ≡ true
      → held id cs ≡ some nothing
      → granted id cs ≡ false
      → Fits id (init_all linux ns cs).1
  init_all-once [] cs h e g = ground arith
  init_all-once (n ∷ ns) cs h e g =
      let a = (init_switch linux n cs).1 in
      ground (
        arith,
        init_own linux id cs e g,
        init_other linux n id cs,
        init_all-absent ns a,
        init_all-once ns a,
      )

  exit_all-absent :
      (ns : List ℕ) (cs : List Call) → absent id ns ≡ true → IsSame id cs (exit_all ns cs).1
  exit_all-absent [] cs h = record { holds = refl; grants = refl }
  exit_all-absent (n ∷ ns) cs h =
      ground (arith, exit_other n id cs, exit_all-absent ns (exit_switch n cs).1)

  exit_all-once :
      (ns : List ℕ) (cs : List Call) → once id ns ≡ true → Fits id cs → Given id (exit_all ns cs).1
  exit_all-once [] cs h fits = ground arith
  exit_all-once (n ∷ ns) cs h fits =
      let a = (exit_switch n cs).1 in
      ground
        (arith, exit_own id cs fits, exit_other n id cs, exit_all-absent ns a, exit_all-once ns a)

  -- For each of the three switches: if its pin and its interrupt were granted, a load and an unload
  -- leave nothing of it held; if one of them was refused, the unload gives back what is not held.
  pub interrupt_exit_balance :
      (id == switch_k1 || id == switch_k2 || id == switch_k3) ≡ true
      → held id (life linux) ≡ (if granted id (life linux) then some nothing else none)
  unfolding interrupt_init interrupt_exit
  interrupt_exit_balance three =
      let ns = switch_k1 ∷ switch_k2 ∷ switch_k3 ∷ [] in
      let here : once id ns ≡ true = ground arith in
      exit_all-once ns (init_all linux ns []).1 here (init_all-once ns [] here refl refl)
