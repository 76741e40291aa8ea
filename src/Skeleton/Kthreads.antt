-- ===== src/Skeleton/Kthreads.antt =====
-- src/01-skeleton/kernel-module/s02e06-thread.c, and the start and end of the threads of
-- s02e07-sleeping.c. The calls are recorded, newest first, with their answers.
pub mod Stops
use mse_ma_csel.Common.{ℕ, zero, suc, Bool, Option, none, some, List, [], ◌∷◌, if◌then◌else◌}
use mse_ma_csel.Common.Int.{ℤ, pos}
use mse_ma_csel.Kernel.State.{Ptr, null, is_err}

-- `pr_info("PING!\n")` is recorded too.
pub data Call : Type 0 where
  kthread_run kthread_stop : Ptr → Call
  kthread_should_stop : Bool → Call
  ping : Call
  ssleep : ℕ → Call

pub record Answers : Type 0 where
  pub kthread_run : List Call → Ptr
  pub kthread_should_stop : List Call → Bool

-- `DELAY_S`
abbrev pub delay_s : ℕ
delay_s = 5

-- `thread_skeletonThread`, in fuel: `none` where it goes on.
unfoldable pub thread_skeleton : Answers → ℕ → List Call → Option (ℤ × List Call)
thread_skeleton linux zero cs = none
thread_skeleton linux (suc fuel) cs =
    let stop = linux.kthread_should_stop cs in
    let asked = kthread_should_stop stop ∷ cs in
    let rest = thread_skeleton linux fuel (ssleep delay_s ∷ ping ∷ asked) in
    if stop then some (pos 0, asked) else rest

-- `sample_thread`
pub record Sample : Type 0 where
  pub sample_thread : Ptr
  pub calls : List Call

unfoldable pub thread_init : Answers → Sample → Sample
thread_init linux s =
    let thread = linux.kthread_run s.calls in
    record { sample_thread = thread; calls = kthread_run thread ∷ s.calls }

unfoldable pub thread_exit : Sample → Sample
thread_exit s = record s { calls = kthread_stop s.sample_thread ∷ s.calls }

-- `thread_1` and `thread_2`
pub record Tasks : Type 0 where
  pub thread_1 : Ptr
  pub thread_2 : Ptr
  pub calls : List Call

-- The trigger is reset in Sleeping.
unfoldable pub sleeping_init : Answers → Tasks → Tasks
sleeping_init linux s =
    let one = linux.kthread_run s.calls in
    let first : Tasks = record s { thread_1 = one; calls = kthread_run one ∷ s.calls } in
    let two = linux.kthread_run first.calls in
    if is_err one
    then first
    else record first { thread_2 = two; calls = kthread_run two ∷ first.calls }

unfoldable pub sleeping_exit : Tasks → Tasks
sleeping_exit s = record s { calls = kthread_stop s.thread_2 ∷ kthread_stop s.thread_1 ∷ s.calls }

-- The static variables before the load.
abbrev pub no_sample : Sample
no_sample = record { sample_thread = null; calls = [] }

abbrev pub no_pair : Tasks
no_pair = record { thread_1 = null; thread_2 = null; calls = [] }
