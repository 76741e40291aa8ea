-- ===== src/System/Run.antt =====
-- Any run of the program: command lines, messages of other clients, presses of buttons, turns of
-- the animation's thread and rounds of the regulator's, one after another.
use Prim.Native.String.{String}
use mse_ma_csel.Common.{◌^◌, ◌<◌, ◌≡◌, refl, false, List, [], ◌∷◌, some, arith}
use mse_ma_csel.Common.Int.{ℤ, is_neg}
use mse_ma_csel.Common.Text.{Format, IsFaithful}
use mse_ma_csel.Kernel.State.{Linux, Kernel, Call}
use mse_ma_csel.Kernel.Regulator.{regulator_round}
use mse_ma_csel.Kernel.Spec.{Control, control, IsUp, regulate, perform}
use mse_ma_csel.Daemon.State.{Daemon, DaemonProc}
use mse_ma_csel.Daemon.App.{animation_turn}
use mse_ma_csel.Daemon.Main.{BtnType, ipc_cbs}
use mse_ma_csel.Daemon.Button.{Btn, handle_event}
use mse_ma_csel.Daemon.Ipc.{IpcMsg, process_message}
use mse_ma_csel.Cli.{Socket, main}
use mse_ma_csel.System.{files}
use mse_ma_csel.System.Link.{Becomes, round-Becomes}
use mse_ma_csel.System.Spec.{pressed, respond, ordered}
use mse_ma_csel.System.Buttons.{button, handle_event-press}
use mse_ma_csel.System.Refinement.{process_message-responds, deliver, IsConnected, main-orders}

pub data Event : Type 0 where
  command : List String → Event
  message : IpcMsg → Event
  press : BtnType → Event
  turn round : Event

-- A message's value is a `uint32_t`.
abbrev pub AllWords : List Event → Type 0
AllWords [] = Unit {0}
AllWords (message msg ∷ es) = (msg.value < 2 ^ 32) × AllWords es
AllWords (command argv ∷ es) = AllWords es
AllWords (press type ∷ es) = AllWords es
AllWords (turn ∷ es) = AllWords es
AllWords (round ∷ es) = AllWords es

module _ (linux : Linux) (text : Format) (faithful : IsFaithful text) (atoi : String → ℤ)
    (socket : Socket) (buttons : BtnType → Btn (DaemonProc Kernel (Unit {0}))) where
  unfoldable pub happen : Event → Daemon Kernel → Daemon Kernel
  happen (command argv) d = deliver linux text faithful atoi socket (main atoi socket argv).1 d
  happen (message msg) d = (process_message (ipc_cbs (files linux text) text) msg d).1
  happen (press type) d = (handle_event (some (button linux text type (buttons type))) b'1' d).1
  happen turn d = (animation_turn d).1
  happen round d = record d { world = (regulator_round linux d.world).1 }

  -- After each event the mode and the period are as promised; a round goes by some value that the
  -- sensor's register shows.
  abbrev pub Follows : List Event → Daemon Kernel → Control → Type 0
  Follows [] d c = control d.world ≡ c
  Follows (command argv ∷ es) d c = Follows es (happen (command argv) d) (ordered atoi argv c)
  Follows (message msg ∷ es) d c = Follows es (happen (message msg) d) (respond msg c)
  Follows (press type ∷ es) d c = Follows es (happen (press type) d) (pressed type c)
  Follows (turn ∷ es) d c = Follows es (happen turn d) c
  Follows (round ∷ es) d c =
      (cs : List Call) × Follows es (happen round d) (perform (regulate (linux.ioread32 cs)) c)

  turn-world : (d : Daemon Kernel) → (animation_turn d).1.world ≡ d.world
  unfolding animation_turn
  turn-world d = ground arith

  turn-Becomes :
      (d : Daemon Kernel) → IsUp d.world → Becomes (control d.world) (animation_turn d).1.world
  turn-Becomes d up = rw (turn-world d) (record { up = up; now = refl })

  module _ (on : IsConnected linux text faithful atoi socket)
      (open_ : (type : BtnType) → is_neg (buttons type).fd ≡ false) where
    -- Over a loaded module in order, with a socket that takes all messages, buttons whose files are
    -- open, and where numbers read back as printed and fit their types: whatever happens, in
    -- whatever order, the mode and the period are what is promised.
    pub run_refines :
        (es : List Event) (d : Daemon Kernel)
        → AllWords es
        → IsUp d.world
        → Follows es d (control d.world)
    unfolding happen
    run_refines [] d w up = refl
    run_refines (command argv ∷ es) d w up =
        let b = (main-orders linux text faithful atoi socket argv d on up).after in
        rw (← b.now) (run_refines es (happen (command argv) d) w b.up)
    run_refines (message msg ∷ es) d w up =
        let b = process_message-responds linux text faithful msg d w.0 up in
        rw (← b.now) (run_refines es (happen (message msg) d) w.1 b.up)
    run_refines (press type ∷ es) d w up =
        let b = handle_event-press linux text type (buttons type) d faithful up (open_ type) in
        rw (← b.now) (run_refines es (happen (press type) d) w b.up)
    run_refines (turn ∷ es) d w up =
        let b = turn-Becomes d up in rw (← b.now) (run_refines es (happen turn d) w b.up)
    run_refines (round ∷ es) d w up =
        let (cs, b) = round-Becomes linux text faithful d.world up in
        (cs, rw (← b.now) (run_refines es (happen round d) w b.up))
