-- ===== src/Tests/SkeletonTests.antt =====
-- The kernel modules of the first lab and the lab on processes at concrete inputs.
use mse_ma_csel.Common.{
  ◌+◌, ◌≤◌, ◌≡◌, ◌⊎◌, refl, Bool, true, false, ◌==◌, none, some, List, [], ◌∷◌, ◌++◌, length, take,
  drop, get_or, if◌then◌else◌, leb,
}
use mse_ma_csel.Common.Int.{pos, negsuc}
use mse_ma_csel.Skeleton.Sleeping
use mse_ma_csel.Skeleton.Sleeping.{
  Threads, started, head, pause, waiting, thread_skeleton_1, thread_skeleton_2, Move, thread_1,
  thread_2, stop, ended, move, moves_from,
}
use mse_ma_csel.Skeleton.Sleeping.Pairing.{bit, sleeping_paired}
use mse_ma_csel.Skeleton.Sleeping.Stopping.{steps_1, after_stop, Goes, sleeping_exit_ends}
use mse_ma_csel.Skeleton.Interrupt.{Answers, switch_k2}
use mse_ma_csel.Skeleton.Interrupt.Balance.{held, nothing, granted}
use mse_ma_csel.Skeleton.Module.{skeleton_init, skeleton_exit, skeleton_exit_balance}
use mse_ma_csel.Kernel.State.{valid, err_ptr}
use mse_ma_csel.Skeleton.Kthreads
use mse_ma_csel.Skeleton.Kthreads.{
  thread_skeleton, thread_init, thread_exit, no_sample, sleeping_init, sleeping_exit, no_pair,
}
use mse_ma_csel.Skeleton.Kthreads.Stops.{checks, pings, slept, thread_skeleton_ends}
use mse_ma_csel.Skeleton.IoMemory.{
  Answers as IoAnswers, chip_id_base_addr, temperature_sensor_base_addr,
  ethernet_controller_base_addr,
}
use mse_ma_csel.Skeleton.IoMemory.Regions.{Left, io_memory_mapped_exit_leaves}
use mse_ma_csel.Multiprocessing.Cgroups.{Call, live, all_granted, main, cgroups_clean}
use mse_ma_csel.Multiprocessing.Process.{msg, Pair, Turn, writer, reader, turn, turns, start}
use mse_ma_csel.Multiprocessing.Process.Delivery.{goes_on, process_delivers}

-- Thread 1 sets the trigger, and thread 2 resets it and is back at its head.
abbrev first_ping : List Move
first_ping = thread_1 ∷ thread_2 ∷ thread_1 ∷ thread_2 ∷ thread_2 ∷ []

abbrev pinged : Threads
pinged = record started { place_1 = waiting; pings = 1; pongs = 1 }

is_pinged : moves_from first_ping (some started) ≡ some pinged
unfolding move thread_skeleton_1 thread_skeleton_2
is_pinged = refl

sleeping_paired_example :
    (pinged.pings ≡ pinged.pongs + bit pinged.trigger)
    × ((pinged.place_1 ≡ pause) → pinged.pings ≡ pinged.pongs)
sleeping_paired_example = sleeping_paired first_ping pinged is_pinged refl

-- The exit after a ping: thread 1 ends, then thread 2 is asked and ends.
abbrev asked : Threads
asked = record pinged { stop_1 = true }

is_asked : moves_from (first_ping ++ stop ∷ []) (some started) ≡ some asked
unfolding move thread_skeleton_1 thread_skeleton_2 Sleeping.sleeping_exit
is_asked = refl

abbrev exit_moves : List Move
exit_moves = thread_1 ∷ thread_1 ∷ stop ∷ thread_2 ∷ []

abbrev over : Threads
over = record asked { place_1 = ended; place_2 = ended; stop_2 = true }

is_over : moves_from exit_moves (some asked) ≡ some over
unfolding move thread_skeleton_1 thread_skeleton_2 Sleeping.sleeping_exit
is_over = refl

sleeping_exit_ends_example :
    (steps_1 exit_moves ≤ 3) × (length (after_stop exit_moves) ≤ 3) × Goes over
sleeping_exit_ends_example =
    sleeping_exit_ends (first_ping ++ stop ∷ []) exit_moves asked over is_asked refl is_over

-- The second switch's pin is in use.
abbrev pin_2_busy : Answers
pin_2_busy = record {
  gpio_request = λ id cs. if id == 2 then negsuc 15 else pos 0;
  request_irq = λ id cs. pos 0;
}

skeleton_exit_balance_example :
    let (ret, loaded) = skeleton_init pin_2_busy [] in
    let unloaded = (skeleton_exit loaded).1 in
    (ret ≡ pos 0)
    × (held switch_k2 unloaded ≡ (if granted switch_k2 unloaded then some nothing else none))
skeleton_exit_balance_example = skeleton_exit_balance pin_2_busy switch_k2 refl

-- The second thread is refused.
abbrev one_thread : Kthreads.Answers
one_thread = record {
  kthread_run = λ cs. if leb (length cs) 0 then valid else err_ptr 12;
  kthread_should_stop = λ cs. leb 3 (checks cs);
}

three_pings :
    (cs : List Kthreads.Call) × (thread_skeleton one_thread 4 [] ≡ some (pos 0, cs))
    × (pings cs ≡ 3)
    × (slept cs ≡ 15)
three_pings = thread_skeleton_ends one_thread 3 (λ cs. refl)

-- The last mapping fails.
abbrev two_maps : IoAnswers
two_maps = record {
  request_mem_region = λ base cs. true;
  ioremap = λ base cs. leb base temperature_sensor_base_addr;
  ioread32 = λ address cs. 0;
}

io_memory_mapped_exit_leaves_example :
    Left two_maps chip_id_base_addr
    × Left two_maps temperature_sensor_base_addr
    × Left two_maps ethernet_controller_base_addr
io_memory_mapped_exit_leaves_example = io_memory_mapped_exit_leaves two_maps

-- Room for twenty blocks: two calls for each.
abbrev twenty : List Call → Bool
twenty cs = leb (length cs) 39

cgroups_clean_example :
    let (code, cs) = main twenty [] in
    (live 7 cs ≡ some false) × (code ≡ (if all_granted cs then 0 else 1))
cgroups_clean_example = cgroups_clean twenty 7

-- Two messages are written before the first is read.
abbrev two_written : List Turn
two_written = writer ∷ writer ∷ reader ∷ []

abbrev halfway : Pair
halfway = record {
  to_write = drop 2 msg;
  to_read = drop 1 msg;
  socket = get_or msg 1 [];
  received = take 1 msg;
}

is_halfway : turns two_written (some (start msg)) ≡ some halfway
unfolding turn
is_halfway = refl

process_delivers_example :
    (halfway.received ++ halfway.to_read ≡ msg)
    × ((halfway.to_read ≡ []) ⊎ (goes_on halfway ≡ true))
process_delivers_example = process_delivers msg two_written halfway refl is_halfway
