-- ===== src/System/Refinement.antt =====
-- The program keeps its promise: any run of command lines, messages, presses and rounds.
use Prim.Native.String.{String}
use text.Mathlib.Text.{◌==◌ as str_eq}
use mse_ma_csel.Common.{
  leb, ◌==◌, Bool, true, Bool-cases, inl, inr, ℕ, ◌^◌, ◌<◌, ◌≡◌, refl, false, none, some, Option,
  if◌then◌else◌, List, [], ◌∷◌, arith,
}
use mse_ma_csel.Common.Int.{ℤ, pos, is_neg}
use mse_ma_csel.Common.Words.{u32, u32-i32, u32-lt}
use mse_ma_csel.Common.Text.{Format, IsFaithful}
use mse_ma_csel.Kernel.State.{Linux, Kernel}
use mse_ma_csel.Kernel.Spec.{Control, control, IsUp}
use mse_ma_csel.Daemon.State.{cb_mutex, mutex_lock, Daemon}
use mse_ma_csel.Daemon.App.{set_period, set_mode}
use mse_ma_csel.Daemon.Main.{ipc_cbs}
use mse_ma_csel.Daemon.Ipc.{
  IpcMsg, process_message, cmd_set_mode, cmd_set_period, cmd_inc_period, cmd_dec_period,
}
use mse_ma_csel.Cli.{Socket, main}
use mse_ma_csel.System.{files}
use mse_ma_csel.System.Link.{Becomes, sysfs_set_period_writes, sysfs_set_mode_writes}
use mse_ma_csel.System.Operations.{increase_period_lem, decrease_period_lem}
use mse_ma_csel.System.Spec.{respond, ordered, with_mode, with_period}

abbrev more_slowly : IpcMsg
more_slowly = record { command = pos cmd_inc_period; value = 0 }

abbrev more_quickly : IpcMsg
more_quickly = record { command = pos cmd_dec_period; value = 0 }

-- What is sent for a verb alone, and for a verb with a number that `main` accepts.
module _ (atoi : String → ℤ) (socket : Socket) (opened : is_neg socket.fd ≡ false)
    (prog verb : String) where
  main-verb : (main atoi socket (prog ∷ verb ∷ [])).1 ≡ (
      if str_eq verb "dec"
      then some more_slowly
      else if str_eq verb "inc"
      then some more_quickly
      else none)
  unfolding main
  main-verb = ground arith

  main-number :
      (arg : String)
      → let n = u32 (atoi arg) in
        (main atoi socket (prog ∷ verb ∷ arg ∷ [])).1 ≡ (
          if str_eq verb "mode"
          then (if leb n 1 then some (record { command = pos cmd_set_mode; value = n }) else none)
          else if str_eq verb "period"
          then (if n == 0 then none else some (record { command = pos cmd_set_period; value = n }))
          else none)
  unfolding main
  main-number arg = ground arith

module _ (atoi : String → ℤ) (socket : Socket) where
  main-empty : (main atoi socket []).1 ≡ none
  unfolding main
  main-empty = refl

  main-bare : (prog : String) → (main atoi socket (prog ∷ [])).1 ≡ none
  unfolding main
  main-bare prog = refl

  main-many :
      (prog verb arg more : String) (rest : List String)
      → (main atoi socket (prog ∷ verb ∷ arg ∷ more ∷ rest)).1 ≡ none
  unfolding main
  main-many prog verb arg more rest = ground arith

module _ (linux : Linux) (text : Format) (faithful : IsFaithful text) where
  abbrev under_lock : Daemon Kernel → Daemon Kernel
  under_lock d = record d { locks = mutex_lock cb_mutex ∷ d.locks }

  -- A message whose value is a `uint32_t` does what is promised.
  pub process_message-responds :
      (msg : IpcMsg) (d : Daemon Kernel)
      → msg.value < 2 ^ 32
      → IsUp d.world
      → Becomes
          (respond msg (control d.world))
          (process_message (ipc_cbs (files linux text) text) msg d).1.world
  unfolding process_message set_period set_mode
  process_message-responds msg d word up = ground (
    arith,
    u32-i32 msg.value word,
    sysfs_set_mode_writes linux text faithful (under_lock d) up msg.value,
    sysfs_set_period_writes linux text faithful (under_lock d) up msg.value,
    increase_period_lem linux text faithful (under_lock d) up,
    decrease_period_lem linux text faithful (under_lock d) up,
  )

  module _ (atoi : String → ℤ) (socket : Socket) where
    -- What the daemon makes of what the command line hands to `sendto`.
    abbrev pub deliver : Option IpcMsg → Daemon Kernel → Daemon Kernel
    deliver none d = d
    deliver (some msg) d =
        if is_neg (socket.sent msg)
        then d
        else (process_message (ipc_cbs (files linux text) text) msg d).1

    -- The socket can be made, and takes every message.
    pub record IsConnected : Type 0 where
      pub opened : is_neg socket.fd ≡ false
      pub taken : (msg : IpcMsg) → is_neg (socket.sent msg) ≡ false

    pub record Delivered (c : Control) (o : Option IpcMsg) (d : Daemon Kernel) : Type 0 where
      pub after : Becomes c (deliver o d).world

    same : (d : Daemon Kernel) → IsUp d.world → Delivered (control d.world) none d
    same d up = record { after = record { up = up; now = refl } }

    sent :
        (msg : IpcMsg) (d : Daemon Kernel)
        → IsConnected
        → msg.value < 2 ^ 32
        → IsUp d.world
        → Delivered (respond msg (control d.world)) (some msg) d
    sent msg d on word up = record {
      after = rw (on.taken msg) (process_message-responds msg d word up);
    }

    mode-delivered :
        (n : ℕ) (d : Daemon Kernel)
        → IsConnected
        → n < 2 ^ 32
        → IsUp d.world
        → Delivered
            (with_mode n (control d.world))
            (if leb n 1 then some (record { command = pos cmd_set_mode; value = n }) else none)
            d
    mode-delivered n d on word up =
        let done = sent (record { command = pos cmd_set_mode; value = n }) d on word up in
        elim (Bool-cases (leb n 1)) [
          | inl valid ↦ rw valid (rw valid at done)
          | inr invalid ↦ rw invalid (same d up)
        ]

    period-delivered :
        (n : ℕ) (d : Daemon Kernel)
        → IsConnected
        → n < 2 ^ 32
        → IsUp d.world
        → Delivered
            (with_period n (control d.world))
            (if n == 0 then none else some (record { command = pos cmd_set_period; value = n }))
            d
    period-delivered n d on word up =
        let done = sent (record { command = pos cmd_set_period; value = n }) d on word up in
        elim (Bool-cases (n == 0)) [
          | inl none_there ↦
              rw none_there (record { after = record { up = up; now = ground arith } })
          | inr there ↦ rw there done
        ]

    deliver-if :
        (b : Bool) {c c' : Control} {o o' : Option IpcMsg} {d : Daemon Kernel}
        → Delivered c o d
        → Delivered c' o' d
        → Delivered (if b then c else c') (if b then o else o') d
    deliver-if true h h' = h
    deliver-if false h h' = h'

    -- Any command line does what is promised.
    pub main-orders :
        (argv : List String) (d : Daemon Kernel)
        → IsConnected
        → IsUp d.world
        → Delivered (ordered atoi argv (control d.world)) (main atoi socket argv).1 d
    main-orders [] d on up = rw (main-empty atoi socket) (same d up)
    main-orders (prog ∷ []) d on up = rw (main-bare atoi socket prog) (same d up)
    main-orders (prog ∷ verb ∷ []) d on up = rw (main-verb atoi socket on.opened prog verb) (
        deliver-if (str_eq verb "dec") (sent more_slowly d on (omega arith) up)
          (deliver-if (str_eq verb "inc") (sent more_quickly d on (omega arith) up) (same d up)))
    main-orders (prog ∷ verb ∷ arg ∷ []) d on up =
        rw (main-number atoi socket on.opened prog verb arg) (
          deliver-if (str_eq verb "mode")
            (mode-delivered (u32 (atoi arg)) d on (u32-lt (atoi arg)) up)
            (deliver-if (str_eq verb "period")
              (period-delivered (u32 (atoi arg)) d on (u32-lt (atoi arg)) up) (same d up)))
    main-orders (prog ∷ verb ∷ arg ∷ more ∷ rest) d on up =
        rw (main-many atoi socket prog verb arg more rest) (same d up)
