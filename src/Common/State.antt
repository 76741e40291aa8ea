-- ===== src/Common/State.antt =====
-- Code that changes a state: a procedure returns its result and the state it leaves.
use mathlib.Core.Bool.{Bool, true, false}

abbrev pub Proc : Type 0 → Type 0 → Type 0
Proc S A = S → A × S

infixl 5 ◌>>=◌ ◌>>◌
abbrev pub ◌>>=◌ : {S A B : Type 0} → Proc S A → (A → Proc S B) → Proc S B
◌>>=◌ m f s = let (a, t) = m s in f a t

abbrev pub ◌>>◌ : {S A B : Type 0} → Proc S A → Proc S B → Proc S B
◌>>◌ m p s = let (a, t) = m s in p t

module _ {S : Type 0} where
  abbrev pub pure : {A : Type 0} → A → Proc S A
  pure a s = (a, s)

  abbrev pub gets : {A : Type 0} → (S → A) → Proc S A
  gets f s = (f s, s)

  abbrev pub modify : (S → S) → Proc S (Unit {0})
  modify f s = (tt, f s)

  abbrev pub skip : Proc S (Unit {0})
  skip s = (tt, s)

  -- `if (b) p;`
  abbrev pub when : Bool → Proc S (Unit {0}) → Proc S (Unit {0})
  when true p = p
  when false p = skip
