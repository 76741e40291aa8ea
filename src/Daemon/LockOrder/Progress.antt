-- ===== src/Daemon/LockOrder/Progress.antt =====
-- Threads that keep the order do not wait for one another in a circle.
use mse_ma_csel.Common.{
  ℕ, ◌≤◌, ◌≡◌, refl, ap, ◌⊎◌, inl, inr, false, List, [], ◌∷◌, ◌++◌, leb, Bool-cases, arith,
}
use mse_ma_csel.Daemon.State.{Mutex, LockEvent, mutex_lock, mutex_unlock}
use mse_ma_csel.Daemon.LockOrder.{rank}
use mse_ma_csel.Daemon.LockOrder.Threads.{
  Thread, Step, advance, Reach, here, next, All, IsDone, IsGood, holds, is_held, IsBelow-free,
  take_lock-IsBelow, follow-IsGood, follows,
}

-- What a thread does next.
data Next (t : Thread) : Type 0 where
  ends : IsDone t → Next t
  takes : (m : Mutex) (es : List LockEvent) → t.program ≡ mutex_lock m ∷ es → Next t
  gives : (m : Mutex) (es : List LockEvent) → t.program ≡ mutex_unlock m ∷ es → Next t

Next-of : (es : List LockEvent) (t : Thread) → t.program ≡ es → Next t
Next-of [] t p = ends p
Next-of (mutex_lock m ∷ es) t p = takes m es p
Next-of (mutex_unlock m ∷ es) t p = gives m es p

-- The thread is done, or waits for a mutex of at most that rank.
data Waits (n : ℕ) (t : Thread) : Type 0 where
  done : IsDone t → Waits n t
  waits : (m : Mutex) (es : List LockEvent) → t.program ≡ mutex_lock m ∷ es → rank m ≤ n → Waits n t

Waits-mono : (a b : ℕ) (t : Thread) → a ≤ b → Waits a t → Waits b t
Waits-mono a b t le (done d) = done d
Waits-mono a b t le (waits m es p r) = waits m es p (omega (arith, r, le))

Waits-All : (a b : ℕ) (ts : List Thread) → a ≤ b → All (Waits a) ts → All (Waits b) ts
Waits-All a b [] le w = tt
Waits-All a b (t ∷ ts) le w = (Waits-mono a b t le w.0, Waits-All a b ts le w.1)

done-All : (n : ℕ) (ts : List Thread) → All IsDone ts → All (Waits n) ts
done-All n [] w = tt
done-All n (t ∷ ts) w = (done w.0, done-All n ts w.1)

-- Some thread that gives back, or one that takes a mutex of the highest rank waited for.
data Stage (ts : List Thread) : Type 0 where
  finished : All IsDone ts → Stage ts
  giving :
      (xs ys : List Thread) (t : Thread) (m : Mutex) (es : List LockEvent)
      → ts ≡ xs ++ t ∷ ys
      → t.program ≡ mutex_unlock m ∷ es
      → Stage ts
  taking :
      (xs ys : List Thread) (t : Thread) (m : Mutex) (es : List LockEvent)
      → ts ≡ xs ++ t ∷ ys
      → t.program ≡ mutex_lock m ∷ es
      → All (Waits (rank m)) ts
      → Stage ts

Stage-cons : (t : Thread) (ts : List Thread) → Next t → Stage ts → Stage (t ∷ ts)
Stage-cons t ts (gives m es p) s = giving [] ts t m es refl p
Stage-cons t ts n (giving xs ys u m es eq p) = giving (t ∷ xs) ys u m es (ap (λ zs. t ∷ zs) eq) p
Stage-cons t ts (ends d) (finished w) = finished (d, w)
Stage-cons t ts (ends d) (taking xs ys u m es eq p w) =
    taking (t ∷ xs) ys u m es (ap (λ zs. t ∷ zs) eq) p (done d, w)
Stage-cons t ts (takes k es p) (finished w) =
    taking [] ts t k es refl p (waits k es p (ground arith), done-All (rank k) ts w)
Stage-cons t ts (takes k es p) (taking xs ys u m fs eq q w) =
    elim (Bool-cases (leb (rank k) (rank m))) [
      | inl low ↦
          taking (t ∷ xs) ys u m fs (ap (λ zs. t ∷ zs) eq) q (waits k es p (ground arith), w)
      | inr high ↦
          taking [] ts t k es refl p
            (waits k es p (ground arith), Waits-All (rank m) (rank k) ts (ground arith) w)
    ]

stage : (ts : List Thread) → Stage ts
stage [] = finished tt
stage (t ∷ ts) = Stage-cons t ts (Next-of t.program t refl) (stage ts)

-- Who waits for a mutex of at most that rank holds none of it or above.
Waits-free : (m : Mutex) (t : Thread) → IsGood t → Waits (rank m) t → holds m t.held ≡ false
Waits-free m t good (done d) =
    let none_held : t.held ≡ [] = rw d at good.ordered in rw none_held refl
Waits-free m t good (waits k es p le) =
    let (ms, f, o) = rw p at good.ordered in
    let (eq, b) = take_lock-IsBelow k t.held ms good.falling f in
    IsBelow-free (rank k) m t.held le b

All-free :
    (m : Mutex) (ts : List Thread) → All IsGood ts → All (Waits (rank m)) ts → is_held m ts ≡ false
All-free m [] good w = refl
All-free m (t ∷ ts) good w = ground (arith, Waits-free m t good.0 w.0, All-free m ts good.1 w.1)

All-split : (xs ys : List Thread) (t : Thread) → All IsGood (xs ++ t ∷ ys) → IsGood t
All-split [] ys t h = h.0
All-split (x ∷ xs) ys t h = All-split xs ys t h.1

All-replace :
    (xs ys : List Thread) (t u : Thread)
    → IsGood u
    → All IsGood (xs ++ t ∷ ys)
    → All IsGood (xs ++ u ∷ ys)
All-replace [] ys t u p h = (p, h.1)
All-replace (x ∷ xs) ys t u p h = (h.0, All-replace xs ys t u p h.1)

-- Threads that all keep the order are done, or one of them can go on.
pub progress :
    (ts : List Thread) → All IsGood ts → All IsDone ts ⊎ ((us : List Thread) × Step ts us)
progress ts good = elim (stage ts) [
  | finished w ↦ inl w
  | giving xs ys t m es eq p ↦
      let (ns, f) = follows t (mutex_unlock m) es (All-split xs ys t (rw eq at good)) p in
      inr (_, advance xs ys t (mutex_unlock m) es ns eq p refl f refl)
  | taking xs ys t m es eq p w ↦
      let (ns, f) = follows t (mutex_lock m) es (All-split xs ys t (rw eq at good)) p in
      inr (_, advance xs ys t (mutex_lock m) es ns eq p (rw (All-free m ts good w) refl) f refl)
]

Step-IsGood : (ts us : List Thread) → All IsGood ts → Step ts us → All IsGood us
Step-IsGood ts us good (advance xs ys t e es ns eq p c f eq') =
    let good' = rw eq at good in
    let moved = follow-IsGood t e es ns (All-split xs ys t good') p f in
    rw eq' (All-replace xs ys t _ moved good')

pub Reach-IsGood : (ts us : List Thread) → All IsGood ts → Reach ts us → All IsGood us
Reach-IsGood ts us good here = good
Reach-IsGood ts us good (next {us = vs} r s) = Step-IsGood vs us (Reach-IsGood ts vs good r) s
