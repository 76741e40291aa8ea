-- ===== src/Skeleton/Sleeping/Stopping.antt =====
-- The two threads end once they are asked to.
use mse_ma_csel.Common.{
  ℕ, ◌+◌, ◌≤◌, ◌≡◌, ◌≢◌, ◌⊎◌, ◌∙◌, inl, inr, refl, ap, true, false, Option, none, some, List, [],
  ◌∷◌, length, Option-cases, Bool-cases, arith,
}
use mse_ma_csel.Skeleton.Sleeping.{
  started, Place, head, pause, waiting, reset, ended, Threads, thread_skeleton_1, thread_skeleton_2,
  sleeping_exit, Move, thread_1, thread_2, stop, move, moves_from,
}

-- The steps that are left for the threads once both are asked to stop.
abbrev left_1 : Place → ℕ
left_1 pause = 3
left_1 waiting = 2
left_1 head = 1
left_1 reset = 0
left_1 ended = 0

abbrev left_2 : Place → ℕ
left_2 waiting = 3
left_2 reset = 2
left_2 head = 1
left_2 pause = 0
left_2 ended = 0

abbrev left : Threads → ℕ
left s = left_1 s.place_1 + left_2 s.place_2

record IsAsked (s : Threads) : Type 0 where
  first : s.stop_1 ≡ true
  second : s.stop_2 ≡ true

thread_1-left :
    (p : Place) (s t : Threads)
    → s.place_1 ≡ p
    → IsAsked s
    → thread_skeleton_1 p s ≡ some t
    → IsAsked t × (left t + 1 ≡ left s)
unfolding thread_skeleton_1
thread_1-left head s t at h e = ground arith
thread_1-left pause s t at h e = ground arith
thread_1-left waiting s t at h e = ground arith
thread_1-left reset s t at h e = ground arith
thread_1-left ended s t at h e = ground arith

thread_2-left :
    (p : Place) (s t : Threads)
    → s.place_2 ≡ p
    → IsAsked s
    → thread_skeleton_2 p s ≡ some t
    → IsAsked t × (left t + 1 ≡ left s)
unfolding thread_skeleton_2
thread_2-left head s t at h e = ground arith
thread_2-left pause s t at h e = ground arith
thread_2-left waiting s t at h e = ground arith
thread_2-left reset s t at h e = ground arith
thread_2-left ended s t at h e = ground arith

move-left :
    (m : Move) (s t : Threads) → IsAsked s → move m s ≡ some t → IsAsked t × (left t + 1 ≡ left s)
unfolding move sleeping_exit
move-left thread_1 s t h e = thread_1-left s.place_1 s t refl h e
move-left thread_2 s t h e = thread_2-left s.place_2 s t refl h e
move-left stop s t h e = ground (arith, h.first, h.second)

none_left : (ms : List Move) (t : Threads) → moves_from ms none ≡ some t → ⊥
none_left [] t e = ground arith
none_left (m ∷ ms) t e = ground arith

moves-left :
    (ms : List Move) (s t : Threads)
    → IsAsked s
    → moves_from ms (some s) ≡ some t
    → length ms + left t ≡ left s
moves-left [] s t h e = let eq : s ≡ t = ground arith in omega (arith, ap left eq)
moves-left (m ∷ ms) s t h e = elim (Option-cases (move m s)) [
  | inl stuck ↦ absurd (none_left ms t (rw stuck at e))
  | inr (u, moved) ↦
      let (asked, less) = move-left m s u h moved in
      omega (arith, moves-left ms u t asked (rw moved at e), less)
]

-- Where a thread can be: thread 1 is never at the reset, and thread 2 never in the pause.
record IsPlaced (s : Threads) : Type 0 where
  place_1 : s.place_1 ≢ reset
  place_2 : s.place_2 ≢ pause

thread_1-IsPlaced :
    (p : Place) (s t : Threads)
    → s.place_1 ≡ p
    → IsPlaced s
    → thread_skeleton_1 p s ≡ some t
    → IsPlaced t
unfolding thread_skeleton_1
thread_1-IsPlaced head s t at h e = ground arith
thread_1-IsPlaced pause s t at h e = ground arith
thread_1-IsPlaced waiting s t at h e = ground arith
thread_1-IsPlaced reset s t at h e = ground arith
thread_1-IsPlaced ended s t at h e = ground arith

thread_2-IsPlaced :
    (p : Place) (s t : Threads)
    → s.place_2 ≡ p
    → IsPlaced s
    → thread_skeleton_2 p s ≡ some t
    → IsPlaced t
unfolding thread_skeleton_2
thread_2-IsPlaced head s t at h e = ground arith
thread_2-IsPlaced pause s t at h e = ground arith
thread_2-IsPlaced waiting s t at h e = ground arith
thread_2-IsPlaced reset s t at h e = ground arith
thread_2-IsPlaced ended s t at h e = ground arith

move-IsPlaced : (m : Move) (s t : Threads) → IsPlaced s → move m s ≡ some t → IsPlaced t
unfolding move sleeping_exit
move-IsPlaced thread_1 s t h e = thread_1-IsPlaced s.place_1 s t refl h e
move-IsPlaced thread_2 s t h e = thread_2-IsPlaced s.place_2 s t refl h e
move-IsPlaced stop s t h e = ground arith

moves-IsPlaced :
    (ms : List Move) (s t : Threads) → IsPlaced s → moves_from ms (some s) ≡ some t → IsPlaced t
moves-IsPlaced [] s t h e = let eq : s ≡ t = ground arith in rw eq at h
moves-IsPlaced (m ∷ ms) s t h e = elim (Option-cases (move m s)) [
  | inl stuck ↦ absurd (none_left ms t (rw stuck at e))
  | inr (u, moved) ↦ moves-IsPlaced ms u t (move-IsPlaced m s u h moved) (rw moved at e)
]

-- A thread that is asked to stop can take its next step, or has ended.
abbrev pub IsFree : Option Threads → Place → Type 0
IsFree next p = (p ≡ ended) ⊎ ((t : Threads) × (next ≡ some t))

thread_1-IsFree :
    (p : Place) (s : Threads) → p ≢ reset → s.stop_1 ≡ true → IsFree (thread_skeleton_1 p s) p
unfolding thread_skeleton_1
thread_1-IsFree head s at asked = inr (_, refl)
thread_1-IsFree pause s at asked = inr (_, refl)
thread_1-IsFree waiting s at asked = inr (record s { place_1 = head }, ground arith)
thread_1-IsFree reset s at asked = absurd (at refl)
thread_1-IsFree ended s at asked = inl refl

thread_2-IsFree :
    (p : Place) (s : Threads) → p ≢ pause → s.stop_2 ≡ true → IsFree (thread_skeleton_2 p s) p
unfolding thread_skeleton_2
thread_2-IsFree head s at asked = inr (_, refl)
thread_2-IsFree waiting s at asked = inr (record s { place_2 = reset }, ground arith)
thread_2-IsFree reset s at asked = inr (_, refl)
thread_2-IsFree pause s at asked = absurd (at refl)
thread_2-IsFree ended s at asked = inl refl

-- The steps of thread 1.
abbrev pub steps_1 : List Move → ℕ
steps_1 [] = 0
steps_1 (thread_1 ∷ ms) = steps_1 ms + 1
steps_1 (_ ∷ ms) = steps_1 ms

-- What follows the exit's next step.
abbrev pub after_stop : List Move → List Move
after_stop [] = []
after_stop (stop ∷ ms) = ms
after_stop (_ ∷ ms) = after_stop ms

-- The exit can go on: thread 1 takes a step; or has ended, and then the exit asks thread 2 to stop,
-- or thread 2, which is asked, takes a step, or has ended as well.
abbrev pub Goes : Threads → Type 0
Goes t =
    ((u : Threads) × (move thread_1 t ≡ some u))
    ⊎ ((t.place_1 ≡ ended) × (t.stop_2 ≡ false) × (u : Threads) × (move stop t ≡ some u))
    ⊎ ((t.place_1 ≡ ended) × (t.stop_2 ≡ true) × (u : Threads) × (move thread_2 t ≡ some u))
    ⊎ ((t.place_1 ≡ ended) × (t.place_2 ≡ ended))

thread_2-keeps :
    (p : Place) (s t : Threads)
    → thread_skeleton_2 p s ≡ some t
    → (t.stop_1 ≡ s.stop_1) × (t.place_1 ≡ s.place_1)
unfolding thread_skeleton_2
thread_2-keeps p s t e = ground arith

thread_1-steps :
    (p : Place) (s t : Threads)
    → s.place_1 ≡ p
    → s.stop_1 ≡ true
    → thread_skeleton_1 p s ≡ some t
    → (t.stop_1 ≡ true) × (left_1 t.place_1 + 1 ≡ left_1 s.place_1)
unfolding thread_skeleton_1
thread_1-steps head s t at h e = ground arith
thread_1-steps pause s t at h e = ground arith
thread_1-steps waiting s t at h e = ground arith
thread_1-steps reset s t at h e = ground arith
thread_1-steps ended s t at h e = ground arith

-- The exit's second step asks thread 2 once thread 1 has ended.
stop-asks :
    (s t : Threads)
    → s.stop_1 ≡ true
    → sleeping_exit s ≡ some t
    → (t.stop_1 ≡ true) × (t.stop_2 ≡ true) × (left_1 t.place_1 ≡ 0) × (left_1 s.place_1 ≡ 0)
unfolding sleeping_exit
stop-asks s t h e = ground arith

moves-steps_1 :
    (ms : List Move) (s t : Threads)
    → s.stop_1 ≡ true
    → moves_from ms (some s) ≡ some t
    → (t.stop_1 ≡ true) × (steps_1 ms + left_1 t.place_1 ≡ left_1 s.place_1)
unfolding move
moves-steps_1 [] s t h e =
    let eq : s ≡ t = ground arith in
    (rw eq at h, omega (arith, ap (λ (x : Threads). left_1 x.place_1) eq))
moves-steps_1 (thread_1 ∷ ms) s t h e = elim (Option-cases (thread_skeleton_1 s.place_1 s)) [
  | inl stuck ↦ absurd (none_left ms t (rw stuck at e))
  | inr (u, moved) ↦
      let (asked, less) = thread_1-steps s.place_1 s u refl h moved in
      let (still, count) = moves-steps_1 ms u t asked (rw moved at e) in
      (still, omega (arith, count, less))
]
moves-steps_1 (thread_2 ∷ ms) s t h e = elim (Option-cases (thread_skeleton_2 s.place_2 s)) [
  | inl stuck ↦ absurd (none_left ms t (rw stuck at e))
  | inr (u, moved) ↦
      let (asked, same) = thread_2-keeps s.place_2 s u moved in
      let (still, count) = moves-steps_1 ms u t (asked ∙ h) (rw moved at e) in
      (still, count ∙ ap left_1 same)
]
moves-steps_1 (stop ∷ ms) s t h e = elim (Option-cases (sleeping_exit s)) [
  | inl stuck ↦ absurd (none_left ms t (rw stuck at e))
  | inr (u, moved) ↦
      let (asked, _, done, before) = stop-asks s u h moved in
      let (still, count) = moves-steps_1 ms u t asked (rw moved at e) in
      (still, omega (arith, count, done, before))
]

left_2-le : (q : Place) → left_2 q ≤ 3
left_2-le q = ground arith

moves-after_stop :
    (ms : List Move) (s t : Threads)
    → s.stop_1 ≡ true
    → moves_from ms (some s) ≡ some t
    → length (after_stop ms) ≤ 3
unfolding move
moves-after_stop [] s t h e = omega arith
moves-after_stop (thread_1 ∷ ms) s t h e = elim (Option-cases (thread_skeleton_1 s.place_1 s)) [
  | inl stuck ↦ absurd (none_left ms t (rw stuck at e))
  | inr (u, moved) ↦
      moves-after_stop ms u t (thread_1-steps s.place_1 s u refl h moved).0 (rw moved at e)
]
moves-after_stop (thread_2 ∷ ms) s t h e = elim (Option-cases (thread_skeleton_2 s.place_2 s)) [
  | inl stuck ↦ absurd (none_left ms t (rw stuck at e))
  | inr (u, moved) ↦
      moves-after_stop ms u t ((thread_2-keeps s.place_2 s u moved).0 ∙ h) (rw moved at e)
]
moves-after_stop (stop ∷ ms) s t h e = elim (Option-cases (sleeping_exit s)) [
  | inl stuck ↦ absurd (none_left ms t (rw stuck at e))
  | inr (u, moved) ↦
      let (one, two, done, _) = stop-asks s u h moved in
      omega (
        arith,
        moves-left ms u t (record { first = one; second = two }) (rw moved at e),
        done,
        left_2-le u.place_2,
      )
]

asks :
    (t : Threads)
    → t.stop_1 ≡ true
    → t.stop_2 ≡ false
    → t.place_1 ≡ ended
    → sleeping_exit t ≡ some (record t { stop_2 = true })
unfolding sleeping_exit
asks t one two done = ground arith

goes_on : (t : Threads) → IsPlaced t → t.stop_1 ≡ true → Goes t
unfolding move
goes_on t h one = elim (thread_1-IsFree t.place_1 t h.place_1 one) [
  | inr next ↦ inl next
  | inl done ↦ elim (Bool-cases t.stop_2) [
    | inr two ↦ inr (inl (done, two, _, asks t one two done))
    | inl two ↦ elim (thread_2-IsFree t.place_2 t h.place_2 two) [
      | inr next ↦ inr (inr (inl (done, two, next.0, next.1)))
      | inl over ↦ inr (inr (inr (done, over)))
    ]
  ]
]

left_1-le : (p : Place) → left_1 p ≤ 3
left_1-le p = ground arith

-- From the loaded module, after any moves, and once the exit has asked thread 1 to stop: in
-- whatever order the threads and the exit move on, thread 1 takes three steps at most, and so does
-- thread 2 once it is asked, which is after the end of thread 1; and the exit is never stuck: while
-- thread 1 has not ended it can take a step, then the exit can ask thread 2, and while thread 2 has
-- not ended it can take a step.
pub sleeping_exit_ends :
    (before ms : List Move) (s t : Threads)
    → moves_from before (some started) ≡ some s
    → s.stop_1 ≡ true
    → moves_from ms (some s) ≡ some t
    → (steps_1 ms ≤ 3) × (length (after_stop ms) ≤ 3) × Goes t
sleeping_exit_ends before ms s t reached one e =
    let first : IsPlaced started = record {
      place_1 = λ e. ground arith;
      place_2 = λ e. ground arith;
    } in
    let (asked, count) = moves-steps_1 ms s t one e in
    (
      omega (arith, count, left_1-le s.place_1),
      moves-after_stop ms s t one e,
      goes_on t (moves-IsPlaced ms s t (moves-IsPlaced before started s first reached) e) asked,
    )
