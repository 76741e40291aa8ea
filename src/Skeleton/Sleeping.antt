-- ===== src/Skeleton/Sleeping.antt =====
-- src/01-skeleton/kernel-module/s02e07-sleeping.c: two threads that wake each other, and their end.
-- A wake of a queue only makes its waiter look again, and a waiter looks before it sleeps, so each
-- wait is a step that is possible while its condition holds.
pub mod Pairing
pub mod Stopping
use mse_ma_csel.Common.{
  ℕ, ◌+◌, Bool, true, false, not, ◌||◌, ◌&&◌, Option, none, some, List, [], ◌∷◌, if◌then◌else◌,
}

-- Where a thread is: at the head of its loop, in the pause of thread 1, in
-- `wait_event_interruptible`, at the reset of thread 2, or past its loop.
pub data Place : Type 0 where
  head pause waiting reset ended : Place

pub record Threads : Type 0 where
  pub trigger : Bool
  pub place_1 : Place
  pub place_2 : Place
  pub stop_1 : Bool  -- `kthread_should_stop()` of thread 1
  pub stop_2 : Bool
  pub pings : ℕ  -- how often the trigger was set
  pub pongs : ℕ  -- how often it was reset by thread 2

-- After `sleeping_init`, with both threads made.
abbrev pub started : Threads
started = record {
  trigger = false;
  place_1 = head;
  place_2 = head;
  stop_1 = false;
  stop_2 = false;
  pings = 0;
  pongs = 0;
}

-- The next step of thread 1, `none` while it waits or once it has ended.
unfoldable pub thread_skeleton_1 : Place → Threads → Option Threads
thread_skeleton_1 head s = some (record s { place_1 = if s.stop_1 then ended else pause })
thread_skeleton_1 pause s =
    some (record s { trigger = true; pings = s.pings + 1; place_1 = waiting })
thread_skeleton_1 waiting s =
    if not s.trigger || s.stop_1 then some (record s { place_1 = head }) else none
thread_skeleton_1 reset s = none
thread_skeleton_1 ended s = none

unfoldable pub thread_skeleton_2 : Place → Threads → Option Threads
thread_skeleton_2 head s = some (record s { place_2 = if s.stop_2 then ended else waiting })
thread_skeleton_2 waiting s =
    if s.trigger || s.stop_2 then some (record s { place_2 = reset }) else none
thread_skeleton_2 reset s = some (record s { trigger = false; pongs = s.pongs + 1; place_2 = head })
thread_skeleton_2 pause s = none
thread_skeleton_2 ended s = none

abbrev pub is_ended : Place → Bool
is_ended ended = true
is_ended _ = false

-- `kthread_stop` asks a thread to stop and returns once it has ended, so `sleeping_exit` asks
-- thread 2 after the end of thread 1.
unfoldable pub sleeping_exit : Threads → Option Threads
sleeping_exit s =
    if not s.stop_1
    then some (record s { stop_1 = true })
    else if is_ended s.place_1 && not s.stop_2
    then some (record s { stop_2 = true })
    else none

pub data Move : Type 0 where
  thread_1 thread_2 stop : Move

unfoldable pub move : Move → Threads → Option Threads
move thread_1 s = thread_skeleton_1 s.place_1 s
move thread_2 s = thread_skeleton_2 s.place_2 s
move stop s = sleeping_exit s

abbrev pub moves_from : List Move → Option Threads → Option Threads
moves_from [] s = s
moves_from (m ∷ ms) none = none
moves_from (m ∷ ms) (some s) = moves_from ms (move m s)
