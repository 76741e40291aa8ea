-- ===== src/Skeleton/Sleeping/Pairing.antt =====
-- The two threads answer each other, and none is lost.
use mse_ma_csel.Common.{
  ℕ, ◌+◌, ◌≡◌, ◌⊎◌, inl, inr, refl, Bool, true, false, Option, none, some, List, [], ◌∷◌,
  Option-cases, arith,
}
use mse_ma_csel.Skeleton.Sleeping.{
  Place, head, pause, waiting, reset, ended, is_ended, Threads, started, thread_skeleton_1,
  thread_skeleton_2, sleeping_exit, Move, thread_1, thread_2, stop, move, moves_from,
}

-- The number of triggers on the way.
abbrev pub bit : Bool → ℕ
bit true = 1
bit false = 0

-- What the place of thread 1 says of the trigger.
abbrev pub Fits1 : Place → Bool → Bool → Type 0
Fits1 head trigger asked = (trigger ≡ false) ⊎ (asked ≡ true)
Fits1 pause trigger asked = trigger ≡ false
Fits1 waiting trigger asked = Unit {0}
Fits1 reset trigger asked = ⊥
Fits1 ended trigger asked = asked ≡ true

abbrev pub Fits2 : Place → Bool → Bool → Type 0
Fits2 head trigger asked = Unit {0}
Fits2 pause trigger asked = ⊥
Fits2 waiting trigger asked = Unit {0}
Fits2 reset trigger asked = (trigger ≡ true) ⊎ (asked ≡ true)
Fits2 ended trigger asked = asked ≡ true

-- Every trigger is answered once, and thread 1 pauses anew only after the answer.
pub record IsPaired (s : Threads) : Type 0 where
  pub first : Fits1 s.place_1 s.trigger s.stop_1
  pub second : Fits2 s.place_2 s.trigger s.stop_2
  pub counted : (s.pings ≡ s.pongs + bit s.trigger) ⊎ (s.stop_2 ≡ true)
  pub in_order : (s.stop_2 ≡ false) ⊎ (is_ended s.place_1 ≡ true)

thread_1-IsPaired :
    (p : Place) (s t : Threads)
    → s.place_1 ≡ p
    → IsPaired s
    → thread_skeleton_1 p s ≡ some t
    → IsPaired t
unfolding thread_skeleton_1
thread_1-IsPaired head s t at h e = ground arith
thread_1-IsPaired pause s t at h e = ground arith
thread_1-IsPaired waiting s t at h e = ground arith
thread_1-IsPaired reset s t at h e = ground arith
thread_1-IsPaired ended s t at h e = ground arith

thread_2-IsPaired :
    (p : Place) (s t : Threads)
    → s.place_2 ≡ p
    → IsPaired s
    → thread_skeleton_2 p s ≡ some t
    → IsPaired t
unfolding thread_skeleton_2
thread_2-IsPaired head s t at h e = ground arith
thread_2-IsPaired pause s t at h e = ground arith
thread_2-IsPaired waiting s t at h e = ground arith
thread_2-IsPaired reset s t at h e = ground arith
thread_2-IsPaired ended s t at h e = ground arith

move-IsPaired : (m : Move) (s t : Threads) → IsPaired s → move m s ≡ some t → IsPaired t
unfolding move sleeping_exit
move-IsPaired thread_1 s t h e = thread_1-IsPaired s.place_1 s t refl h e
move-IsPaired thread_2 s t h e = thread_2-IsPaired s.place_2 s t refl h e
move-IsPaired stop s t h e = ground arith

moves_from-none : (ms : List Move) (s : Threads) → moves_from ms none ≡ some s → IsPaired s
moves_from-none [] s e = ground arith
moves_from-none (m ∷ ms) s e = ground arith

moves_from-IsPaired :
    (ms : List Move) (s t : Threads) → IsPaired s → moves_from ms (some s) ≡ some t → IsPaired t
moves_from-IsPaired [] s t h e = let eq : s ≡ t = ground arith in rw eq at h
moves_from-IsPaired (m ∷ ms) s t h e = elim (Option-cases (move m s)) [
  | inl stuck ↦ moves_from-none ms t (rw stuck at e)
  | inr (u, moved) ↦ moves_from-IsPaired ms u t (move-IsPaired m s u h moved) (rw moved at e)
]

started-IsPaired : IsPaired started
started-IsPaired = record { first = inl refl; second = tt; counted = inl refl; in_order = inl refl }

-- After any moves from the start, until thread 2 is asked to stop: each trigger was answered once
-- but for at most the last one; and thread 1 is at its pause only when all were answered.
pub sleeping_paired :
    (ms : List Move) (s : Threads)
    → moves_from ms (some started) ≡ some s
    → s.stop_2 ≡ false
    → (s.pings ≡ s.pongs + bit s.trigger) × ((s.place_1 ≡ pause) → s.pings ≡ s.pongs)
sleeping_paired ms s e asked =
    let h = moves_from-IsPaired ms started s started-IsPaired e in
    (ground arith, λ at. ground arith)

abbrev is_some : Option Threads → Bool
is_some none = false
is_some (some s) = true

abbrev pub can : Move → Threads → Bool
can m s = is_some (move m s)

-- A thread goes on; or thread 1 has ended and thread 2 is asked to; or both have ended.
abbrev pub Goes : Threads → Type 0
Goes s =
    (can thread_1 s ≡ true)
    ⊎ (can thread_2 s ≡ true)
    ⊎ ((s.place_1 ≡ ended) × (can stop s ≡ true))
    ⊎ ((s.place_1 ≡ ended) × (s.place_2 ≡ ended))

IsPaired-Goes : (p q : Place) (s : Threads) → s.place_1 ≡ p → s.place_2 ≡ q → IsPaired s → Goes s
unfolding move thread_skeleton_1 thread_skeleton_2 sleeping_exit
IsPaired-Goes head q s ep eq h = ground arith
IsPaired-Goes pause q s ep eq h = ground arith
IsPaired-Goes waiting q s ep eq h = ground arith
IsPaired-Goes reset q s ep eq h = ground arith
IsPaired-Goes ended q s ep eq h = ground arith

-- After any moves from the start, no thread is lost: one of them can go on, or thread 1 has ended
-- and `sleeping_exit` asks thread 2 to end, or both have ended.
pub sleeping-Goes : (ms : List Move) (s : Threads) → moves_from ms (some started) ≡ some s → Goes s
sleeping-Goes ms s e =
    IsPaired-Goes s.place_1 s.place_2 s refl refl
      (moves_from-IsPaired ms started s started-IsPaired e)
