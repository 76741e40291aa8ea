-- ===== src/Daemon/LockOrder/Threads.antt =====
-- Threads that take and give back mutexes, in any interleaving, and what each of them keeps to.
use mse_ma_csel.Common.{
  ℕ, ◌≤◌, ◌<◌, ◌≡◌, refl, Bool, true, false, not, ◌||◌, some, List, [], ◌∷◌, ◌++◌, ltb, ◌==◌,
  Bool-cases, inl, inr, arith,
}
use mse_ma_csel.Daemon.State.{Mutex, LockEvent, mutex_lock, mutex_unlock}
use mse_ma_csel.Daemon.LockOrder.{rank, take_lock, follow}

-- A thread: what it holds, and what it is still to do.
pub record Thread : Type 0 where
  pub held : List Mutex
  pub program : List LockEvent

abbrev pub holds : Mutex → List Mutex → Bool
holds m [] = false
holds m (n ∷ ns) = rank n == rank m || holds m ns

abbrev pub is_held : Mutex → List Thread → Bool
is_held m [] = false
is_held m (t ∷ ts) = holds m t.held || is_held m ts

-- A mutex is taken only while no thread holds it.
abbrev pub can_do : LockEvent → List Thread → Bool
can_do (mutex_lock m) ts = not (is_held m ts)
can_do (mutex_unlock m) ts = true

-- One thread does its next event.
pub data Step (ts us : List Thread) : Type 0 where
  advance :
      (xs ys : List Thread) (t : Thread) (e : LockEvent) (es : List LockEvent) (ns : List Mutex)
      → ts ≡ xs ++ t ∷ ys
      → t.program ≡ e ∷ es
      → can_do e ts ≡ true
      → follow e (some t.held) ≡ some ns
      → us ≡ xs ++ record { held = ns; program = es } ∷ ys
      → Step ts us

pub data Reach (ts : List Thread) : List Thread → Type 0 where
  here : Reach ts ts
  next : {us vs : List Thread} → Reach ts us → Step us vs → Reach ts vs

abbrev pub All {ℓ} : {A : Type ℓ} → (A → Type 0) → List A → Type 0
All P [] = Unit {0}
All P (x ∷ xs) = P x × All P xs

abbrev pub IsDone : Thread → Type 0
IsDone t = t.program ≡ []

-- From what is held, the program keeps the order, gives back only the last mutex taken, and ends
-- with none.
abbrev pub Ordered : List Mutex → List LockEvent → Type 0
Ordered ns [] = ns ≡ []
Ordered ns (e ∷ es) = (ms : List Mutex) × (follow e (some ns) ≡ some ms) × Ordered ms es

abbrev pub IsBelow : ℕ → List Mutex → Type 0
IsBelow n [] = Unit {0}
IsBelow n (m ∷ ms) = (rank m < n) × IsBelow n ms

-- The mutexes that are held fall in rank.
abbrev pub IsFalling : List Mutex → Type 0
IsFalling [] = Unit {0}
IsFalling (m ∷ ms) = IsBelow (rank m) ms × IsFalling ms

pub record IsGood (t : Thread) : Type 0 where
  pub ordered : Ordered t.held t.program
  pub falling : IsFalling t.held

IsBelow-mono : (a b : ℕ) (ns : List Mutex) → a ≤ b → IsBelow a ns → IsBelow b ns
IsBelow-mono a b [] le h = h
IsBelow-mono a b (n ∷ ns) le h = (omega (arith, h.0), IsBelow-mono a b ns le h.1)

pub IsBelow-free :
    (a : ℕ) (n : Mutex) (ns : List Mutex) → a ≤ rank n → IsBelow a ns → holds n ns ≡ false
IsBelow-free a n [] le h = refl
IsBelow-free a n (k ∷ ns) le h = ground (arith, h.0, IsBelow-free a n ns le h.1)

-- A mutex that is taken in order ranks above all that are held.
pub take_lock-IsBelow :
    (m : Mutex) (ns ms : List Mutex)
    → IsFalling ns
    → take_lock m ns ≡ some ms
    → (ms ≡ m ∷ ns) × IsBelow (rank m) ns
take_lock-IsBelow m [] ms h e = (ground arith, tt)
take_lock-IsBelow m (n ∷ ns) ms h e = elim (Bool-cases (ltb (rank n) (rank m))) [
  | inl above ↦ (ground arith, (ground arith, IsBelow-mono (rank n) (rank m) ns (ground arith) h.0))
  | inr below ↦ ground arith
]

follow-IsFalling :
    (e : LockEvent) (ns ms : List Mutex)
    → IsFalling ns
    → follow e (some ns) ≡ some ms
    → IsFalling ms
follow-IsFalling (mutex_lock m) ns ms h e =
    let (eq, b) = take_lock-IsBelow m ns ms h e in rw eq (b, h)
follow-IsFalling (mutex_unlock m) [] ms h e = ground arith
follow-IsFalling (mutex_unlock m) (n ∷ ns) ms h e = elim (Bool-cases (rank n == rank m)) [
  | inl same ↦ let eq : ms ≡ ns = ground arith in rw eq h.1
  | inr other ↦ ground arith
]

-- A thread that keeps the order goes on keeping it.
pub follow-IsGood :
    (t : Thread) (e : LockEvent) (es : List LockEvent) (ns : List Mutex)
    → IsGood t
    → t.program ≡ e ∷ es
    → follow e (some t.held) ≡ some ns
    → IsGood (record { held = ns; program = es })
follow-IsGood t e es ns good p f =
    let (ms, f', o) = rw p at good.ordered in
    let eq : ms ≡ ns = ground arith in
    record { ordered = rw eq at o; falling = follow-IsFalling e t.held ns good.falling f }

-- A thread that is not done goes on with an event that it may do.
pub follows :
    (t : Thread) (e : LockEvent) (es : List LockEvent)
    → IsGood t
    → t.program ≡ e ∷ es
    → (ns : List Mutex) × (follow e (some t.held) ≡ some ns)
follows t e es good p = let (ms, f, o) = rw p at good.ordered in (ms, f)
