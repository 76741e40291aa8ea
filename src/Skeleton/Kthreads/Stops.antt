-- ===== src/Skeleton/Kthreads/Stops.antt =====
-- What the unload stops, and how long the thread goes on.
use mse_ma_csel.Common.{
  ℕ, zero, suc, ◌+◌, ◌*◌, ◌≡◌, Bool, true, false, not, ◌&&◌, Option, none, some, List, [], ◌∷◌, leb,
  if◌then◌else◌, ◌||◌, ◌-◌, arith,
}
use mse_ma_csel.Common.Int.{pos}
use mse_ma_csel.Kernel.State.{is_err, is_null}
use mse_ma_csel.Skeleton.Kthreads.{
  Call, kthread_run, kthread_stop, kthread_should_stop, ping, ssleep, Answers, thread_skeleton,
  thread_init, thread_exit, no_sample, sleeping_init, sleeping_exit, no_pair,
}

-- How many threads run; `none` after a stop of what is no thread.
abbrev pub running : List Call → Option ℕ
running [] = some 0
running (kthread_run thread ∷ cs) = elim (running cs) [
  | none ↦ none
  | some n ↦ some (if is_err thread then n else suc n)
]
running (kthread_stop thread ∷ cs) = elim (running cs) [
  | none ↦ none
  | some n ↦ if is_err thread || is_null thread then none else some (n - 1)
]
running (_ ∷ cs) = running cs

-- Every thread that was asked for was made.
abbrev pub all_made : List Call → Bool
all_made [] = true
all_made (kthread_run thread ∷ cs) = not (is_err thread) && all_made cs
all_made (_ ∷ cs) = all_made cs

abbrev pub checks : List Call → ℕ
checks [] = 0
checks (kthread_should_stop b ∷ cs) = suc (checks cs)
checks (_ ∷ cs) = checks cs

abbrev pub pings : List Call → ℕ
pings [] = 0
pings (ping ∷ cs) = suc (pings cs)
pings (_ ∷ cs) = pings cs

-- In seconds.
abbrev pub slept : List Call → ℕ
slept [] = 0
slept (ssleep n ∷ cs) = n + slept cs
slept (_ ∷ cs) = slept cs

-- `kthread_run` never gives NULL.
abbrev pub NeverNull : Answers → Type 0
NeverNull linux = (cs : List Call) → is_null (linux.kthread_run cs) ≡ false

-- With a `kthread_run` that never gives NULL: after a load and an unload of the module with one
-- thread, and of the one with two, no thread runs if all were made; if one was refused, the unload
-- stops what is no thread.
pub exits-running :
    (linux : Answers)
    → NeverNull linux
    → let one = (thread_exit (thread_init linux no_sample)).calls in
      let two = (sleeping_exit (sleeping_init linux no_pair)).calls in
      (running one ≡ (if all_made one then some 0 else none))
      × (running two ≡ (if all_made two then some 0 else none))
unfolding thread_init thread_exit sleeping_init sleeping_exit
exits-running linux never = (
  ground (arith, never []),
  ground (arith, never [], never (kthread_run (linux.kthread_run []) ∷ [])),
)

-- What a thread adds that is asked to stop after `m` more rounds.
thread_skeleton-adds :
    (linux : Answers) (n m : ℕ) (cs : List Call)
    → ((ds : List Call) → linux.kthread_should_stop ds ≡ leb n (checks ds))
    → checks cs + m ≡ n
    → (ds : List Call) × (thread_skeleton linux (suc m) cs ≡ some (pos 0, ds))
      × (pings ds ≡ pings cs + m)
      × (slept ds ≡ slept cs + 5 * m)
unfolding thread_skeleton
thread_skeleton-adds linux n zero cs asks left =
    (kthread_should_stop true ∷ cs, ground (arith, asks cs), omega arith, omega arith)
thread_skeleton-adds linux n (suc m) cs asks left =
    let (ds, ends, p, s) =
      thread_skeleton-adds linux n m (ssleep 5 ∷ ping ∷ kthread_should_stop false ∷ cs) asks
        (omega (arith, left)) in
    (ds, ground (arith, asks cs, ends), omega (arith, p), omega (arith, s))

-- A thread that is asked to stop after `n` rounds returns 0 within `n + 1` rounds of fuel; until
-- then it printed PING `n` times and slept five seconds each time.
pub thread_skeleton_ends :
    (linux : Answers) (n : ℕ)
    → ((cs : List Call) → linux.kthread_should_stop cs ≡ leb n (checks cs))
    → (cs : List Call) × (thread_skeleton linux (suc n) [] ≡ some (pos 0, cs))
      × (pings cs ≡ n)
      × (slept cs ≡ 5 * n)
thread_skeleton_ends linux n asks =
    let (cs, ends, p, s) = thread_skeleton-adds linux n n [] asks (omega arith) in
    (cs, ends, omega (arith, p), omega (arith, s))
