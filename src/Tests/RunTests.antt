-- ===== src/Tests/RunTests.antt =====
-- Whole runs of the program at concrete inputs.
use Prim.Native.String.{String}
use text.Mathlib.Text.{◌==◌ as str_eq}
use mse_ma_csel.Common.{
  ℕ, ◌≡◌, ◌⊎◌, ◌↔◌, refl, false, Option, none, some, List, [], ◌∷◌, map, if◌then◌else◌, arith,
}
use mse_ma_csel.Common.Int.{ℤ, pos}
use mse_ma_csel.Common.Text.{Bytes}
use mse_ma_csel.Kernel.State.{Kernel, Call}
use mse_ma_csel.Kernel.Entries.{read_period_status, round, write_mode}
use std.Path.{transport}
use mathlib.Core.Quot
use mse_ma_csel.Kernel.Spec.{control, IsUp}
use mse_ma_csel.Kernel.Observation.{Same, replies-control}
use mse_ma_csel.Kernel.Observation.States.{Loaded, Setting, Observed, setting, observed_settings}
use mse_ma_csel.Kernel.Refinement.{Behaves, entries_refine}
use mse_ma_csel.Daemon.State.{DaemonProc}
use mse_ma_csel.Daemon.Main.{BtnType, btn_increase, btn_mode}
use mse_ma_csel.Daemon.Button.{Btn}
use mse_ma_csel.Daemon.Ipc.{cmd_set_period, cmd_dec_period}
use mse_ma_csel.Daemon.Oled.{Printer, oled_cbs, update_turn}
use mse_ma_csel.Daemon.Oled.Rows.{draw, shown, texts}
use mse_ma_csel.Daemon.LockOrder.Threads.{Thread, Step, here, All, IsDone}
use mse_ma_csel.Daemon.LockOrder.Works.{Work, message, event, turn, refresh, start, no_deadlock}
use mse_ma_csel.Daemon.Posix.{Posix}
use mse_ma_csel.Daemon.Ipc.Server.{Answers, initial}
use mse_ma_csel.Daemon.Start.{Process, main as daemon_main}
use mse_ma_csel.Cli.{Socket}
use mse_ma_csel.System.{files}
use mse_ma_csel.System.Link.{Becomes}
use mse_ma_csel.System.Run.{Event, command, press, Follows, run_refines}
use mse_ma_csel.System.Display.{temp_read, update_turn-shown}
use mse_ma_csel.Tests.Data.{
  granting, plain, plain-IsFaithful, daemon, daemon-IsUp, manual_kernel, auto_kernel,
  auto-IsRegulated,
}

-- To automatic mode, a round, and a reader.
entries_refine_example :
    Behaves granting plain
      (write_mode (1 ∷ []) 1 ∷ round ∷ read_period_status ∷ [])
      daemon.world
      (control daemon.world)
entries_refine_example =
    entries_refine granting plain plain-IsFaithful
      (write_mode (1 ∷ []) 1 ∷ round ∷ read_period_status ∷ []) daemon.world daemon-IsUp

-- The `atoi` of the texts that the test uses.
abbrev atoi : String → ℤ
atoi text = if str_eq text "250" then pos 250 else pos 1

abbrev socket : Socket
socket = record { fd = pos 3; sent = λ msg. pos 8 }

abbrev buttons : BtnType → Btn (DaemonProc Kernel (Unit {0}))
buttons type = record { fd = pos 4; pin = "2"; callback = none }

abbrev a_day : List Event
a_day =
    command ("cli" ∷ "period" ∷ "250" ∷ [])
    ∷ press btn_increase
    ∷ Event.turn
    ∷ Event.message (record { command = pos cmd_set_period; value = 90 })
    ∷ press btn_mode
    ∷ Event.round
    ∷ []

run_refines_example :
    Follows granting plain plain-IsFaithful atoi socket buttons a_day daemon (control daemon.world)
run_refines_example =
    run_refines granting plain plain-IsFaithful atoi socket buttons
      (record { opened = refl; taken = λ msg. refl }) (λ type. refl) a_day daemon (omega arith, tt)
      daemon-IsUp

abbrev printer : Printer ℕ
printer = record { print_temp = λ t. t ∷ []; print_freq = λ p. p ∷ []; print_d = λ n. 7 ∷ [] }

abbrev scan : Bytes → Option ℕ
scan b = some 41

-- A press and then a message on one thread, two turns of the display on another.
abbrev jobs : List (List (Work Kernel))
jobs =
    (event btn_increase (buttons btn_increase) b'1' daemon
      ∷ message (record { command = pos cmd_dec_period; value = 0 }) daemon
      ∷ [])
    ∷ (refresh daemon ∷ turn daemon ∷ [])
    ∷ []

abbrev threads : List Thread
threads = map (start (files granting plain) plain printer 0 scan) jobs

no_deadlock_example : All IsDone threads ⊎ ((us : List Thread) × Step threads us)
no_deadlock_example = no_deadlock (files granting plain) plain printer 0 scan jobs threads here

update_turn-shown_example :
    let (ms, d') =
      update_turn printer (some (oled_cbs (files granting plain) plain 0 scan)) daemon in
    (cs : List Call) × (draw ms 5 9
      ≡ shown 0
          (texts printer (pos 0) (temp_read granting plain 0 scan (granting.ioread32 cs)) 500))
    × Becomes (control daemon.world) d'.world
update_turn-shown_example =
    update_turn-shown granting plain 0 scan printer plain-IsFaithful daemon daemon-IsUp 5 9

-- Every file opens as descriptor 6, and every call succeeds.
abbrev working : Posix
working = record {
  open_file = λ path cs. pos 6;
  pread = λ fd cs. b'0';
  mutex_init = λ cs. pos 0;
  epoll_create = λ cs. pos 3;
  pthread_create = λ cs. pos 0;
}

abbrev bound : Answers
bound = record { socket = λ cs. pos 5; bind = λ cs. pos 0; pthread_create = λ cs. pos 0 }

abbrev blank : Process Kernel ℕ
blank = record {
  buttons = buttons;
  btn_list = [];
  btn_tail = 0;
  epoll_fd = pos 0;
  exited = false;
  calls = [];
  gpio = pos 0;
  server = initial;
  oled_cbs = none;
  screen = [];
  oled_thread = false;
  led = false;
  anim_thread = false;
}

auto-IsUp : IsUp auto_kernel
auto-IsUp = record { regulated = auto-IsRegulated; linked = refl; mapped = refl }

-- Two kernels that differ in the mode.
replies-control_example :
    Same granting plain manual_kernel auto_kernel ↔ (control manual_kernel ≡ control auto_kernel)
replies-control_example =
    replies-control granting plain plain-IsFaithful 1300 (λ cs. refl) manual_kernel auto_kernel
      daemon-IsUp auto-IsUp

observed_settings_example :
    (e : Observed granting plain ≡ Setting) × ((x : Loaded) → transport e (Quot.mk x) ≡ setting x)
observed_settings_example = observed_settings granting plain 1300 plain-IsFaithful (λ cs. refl)
