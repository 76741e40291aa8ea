-- ===== src/Daemon/LockOrder/Works.antt =====
-- What the daemon's threads do, as the mutexes that each piece of their work takes and gives back.
use mse_ma_csel.Common.{
  ℕ, ◌≡◌, refl, ◌⊎◌, inl, inr, Option, some, List, [], ◌∷◌, map, Option-cases, arith,
}
use mse_ma_csel.Common.Text.{Bytes, Format}
use mse_ma_csel.Daemon.State.{LockEvent, Mutex, Files, Daemon, DaemonProc}
use mse_ma_csel.Daemon.App.{animation_turn}
use mse_ma_csel.Daemon.Main.{BtnType, ipc_cbs, btn_callback}
use mse_ma_csel.Daemon.Ipc.{IpcMsg, process_message}
use mse_ma_csel.Daemon.Oled.{Printer, oled_cbs, update_turn}
use mse_ma_csel.Daemon.Button.{Btn, handle_event}
use mse_ma_csel.Daemon.LockOrder.{
  locked, process_message-order, animation_turn-order, update_turn-order, btn_callback-order,
}
use mse_ma_csel.Daemon.LockOrder.Threads.{Thread, Step, Reach, All, IsDone, IsGood, Ordered}
use mse_ma_csel.Daemon.LockOrder.Progress.{progress, Reach-IsGood}

-- A piece of a thread's work: a message, an event of a button's file, a turn of the animation or of
-- the display. Each finds whatever the others left in the files and the shared variables.
pub data Work (W : Type 0) : Type 0 where
  message : IpcMsg → Daemon W → Work W
  event : BtnType → Btn (DaemonProc W (Unit {0})) → ℕ → Daemon W → Work W
  turn : Daemon W → Work W
  refresh : Daemon W → Work W

-- The newest first, before an older program's events.
abbrev then_do : List LockEvent → List LockEvent → List LockEvent
then_do [] es = es
then_do (e ∷ newest) es = then_do newest (e ∷ es)

then_do-Ordered :
    (newest es : List LockEvent) (ns : List Mutex)
    → locked newest ≡ some ns
    → Ordered ns es
    → Ordered [] (then_do newest es)
then_do-Ordered [] es ns l o = let eq : ns ≡ [] = ground arith in rw eq at o
then_do-Ordered (e ∷ newest) es ns l o = elim (Option-cases (locked newest)) [
  | inl lost ↦ ground arith
  | inr (ms, kept) ↦ then_do-Ordered newest (e ∷ es) ms kept (ns, rw kept at l, o)
]

module _ {W F : Type 0} (files : Files W) (text : Format) (printer : Printer F) (zero_f : F)
    (scan_f : Bytes → Option F) where
  abbrev fresh : Daemon W → Daemon W
  fresh d = record d { locks = [] }

  -- The mutexes that the work takes and gives back, newest first.
  abbrev trace : Work W → List LockEvent
  trace (message msg d) = (process_message (ipc_cbs files text) msg (fresh d)).1.locks
  trace (event type b value d) =
      (handle_event (some (record b { callback = some (btn_callback files text type) })) value
        (fresh d)).1.locks
  trace (turn d) = (animation_turn (fresh d)).1.locks
  trace (refresh d) =
      (update_turn printer (some (oled_cbs files text zero_f scan_f)) (fresh d)).1.locks

  trace-locked : (w : Work W) → locked (trace w) ≡ some []
  unfolding handle_event
  trace-locked (message msg d) = process_message-order files text (fresh d) refl msg
  trace-locked (event type b value d) =
      ground (arith, btn_callback-order files text (fresh d) refl type)
  trace-locked (turn d) = animation_turn-order files text (fresh d) refl
  trace-locked (refresh d) = update_turn-order files text printer zero_f scan_f (fresh d) refl

  abbrev program : List (Work W) → List LockEvent
  program [] = []
  program (w ∷ ws) = then_do (trace w) (program ws)

  abbrev pub start : List (Work W) → Thread
  start ws = record { held = []; program = program ws }

  program-Ordered : (ws : List (Work W)) → Ordered [] (program ws)
  program-Ordered [] = refl
  program-Ordered (w ∷ ws) =
      then_do-Ordered (trace w) (program ws) [] (trace-locked w) (program-Ordered ws)

  starts-IsGood : (jobs : List (List (Work W))) → All IsGood (map start jobs)
  starts-IsGood [] = tt
  starts-IsGood (ws ∷ jobs) =
      (record { ordered = program-Ordered ws; falling = tt }, starts-IsGood jobs)

  -- The daemon's threads never wait for one another in a circle: with any messages, events of
  -- buttons and turns of the animation and the display on each of any number of threads, and in
  -- whatever order these take and give back their mutexes, all work is done or some thread can go
  -- on.
  pub no_deadlock :
      (jobs : List (List (Work W))) (ts : List Thread)
      → Reach (map start jobs) ts
      → All IsDone ts ⊎ ((us : List Thread) × Step ts us)
  no_deadlock jobs ts reached =
      progress ts (Reach-IsGood (map start jobs) ts (starts-IsGood jobs) reached)
