-- ===== src/Tests/DaemonTests.antt =====
-- The daemon's theorems at concrete inputs.
use mse_ma_csel.Common.{
  replicate, ◌++◌, ℕ, ◌≡◌, ◌⊎◌, true, false, refl, none, some, List, [], ◌∷◌, length, if◌then◌else◌,
  arith,
}
use mse_ma_csel.Common.Int.{pos, negsuc}
use mse_ma_csel.Daemon.Main.{ipc_cbs}
use mse_ma_csel.Daemon.Ipc.{IpcMsg, IpcCallbacks, cmd_set_mode, cmd_inc_period, process_message}
use mse_ma_csel.Daemon.Ipc.Server.{
  Answers, Server, initial, start_ipc_server, stop_ipc_server, Turn, ipc_thread_func,
}
use mse_ma_csel.Daemon.Ipc.Life.{
  IsStopped, IsServing, start_ipc_server_all_or_nothing, messages, process_all,
  ipc_thread_processes,
}
use mse_ma_csel.Daemon.Posix.{Posix, Call}
use mse_ma_csel.Daemon.Led.Descriptors.{is_lit}
use mse_ma_csel.Daemon.Button.{Buttons}
use mse_ma_csel.Daemon.Ssd1306.{puts}
use mse_ma_csel.Daemon.Ssd1306.Screen.{AllData, columns, rendered, puts-rendered}
use mse_ma_csel.System.{files}
use mse_ma_csel.Daemon.Main.{btn_decrease, btn_mode}
use mse_ma_csel.Daemon.Queue.{Move, press, turn, moves, flashes, moves-all_played}
use mse_ma_csel.Tests.Data.{granting, plain, daemon}

-- Presses of two buttons between the turns, and two animations from before.
abbrev presses_and_turns : List Move
presses_and_turns = turn ∷ press btn_decrease ∷ press btn_mode ∷ turn ∷ []

moves-all_played_example :
    let d' = moves (files granting plain) plain (presses_and_turns ++ replicate 3 turn) daemon in
    (d'.lights ≡ flashes 3 []) × (d'.pending_animations ≡ 0)
moves-all_played_example =
    moves-all_played (files granting plain) plain presses_and_turns 3 daemon
      (record { has_led = refl; running = refl }) (omega arith)

-- Any callbacks.
abbrev callbacks : ℕ
callbacks = 7

-- The name of the socket cannot be bound.
abbrev unbound : Answers
unbound = record { socket = λ cs. pos 5; bind = λ cs. negsuc 0; pthread_create = λ cs. pos 0 }

start_all_or_nothing_example :
    let (ret, s') = start_ipc_server unbound (some callbacks) initial in
    ((ret ≡ pos 0) × IsServing s' × (s'.current_cbs ≡ some callbacks))
    ⊎ ((ret ≡ negsuc 0) × IsStopped s')
start_all_or_nothing_example =
    start_ipc_server_all_or_nothing unbound callbacks initial
      (record { idle = refl; no_fd = refl; clean = refl })

abbrev bound : Answers
bound = record { socket = λ cs. pos 5; bind = λ cs. pos 0; pthread_create = λ cs. pos 0 }

abbrev serving : Server ℕ
serving = record {
  server_fd = pos 5;
  is_running = true;
  current_cbs = some 7;
  calls =
      mse_ma_csel.Daemon.Ipc.Server.Call.pthread_create (pos 0)
      ∷ mse_ma_csel.Daemon.Ipc.Server.Call.bind (pos 5) (pos 0)
      ∷ mse_ma_csel.Daemon.Ipc.Server.Call.socket (pos 5)
      ∷ [];
}

-- A short message between two whole ones.
abbrev turns : List Turn
turns =
    record {
      running = true;
      bytes_read = pos 8;
      msg = record { command = pos cmd_set_mode; value = 1 };
      still_running = true;
    }
    ∷ record {
      running = true;
      bytes_read = pos 3;
      msg = record { command = pos cmd_set_mode; value = 0 };
      still_running = true;
    }
    ∷ record {
      running = true;
      bytes_read = pos 8;
      msg = record { command = pos cmd_inc_period; value = 0 };
      still_running = true;
    }
    ∷ []

ipc_thread_processes_example :
    ipc_thread_func (ipc_cbs (files granting plain) plain) turns daemon
    ≡ process_all (ipc_cbs (files granting plain) plain) (messages turns) daemon
ipc_thread_processes_example =
    ipc_thread_processes (ipc_cbs (files granting plain) plain) turns daemon
      (refl, refl, (refl, refl, (refl, refl, tt)))

-- Every file opens as descriptor 4, and a LED's file reads as it was last written.
abbrev posix : Posix
posix = record {
  open_file = λ path cs. pos 4;
  pread = λ fd cs. if is_lit cs then b'1' else b'0';
  mutex_init = λ cs. pos 0;
  epoll_create = λ cs. pos 9;
  pthread_create = λ cs. pos 0;
}

-- No button was set up yet.
abbrev no_buttons : Buttons ℕ
no_buttons = record {
  btn = record { fd = negsuc 0; pin = ""; callback = none };
  btn_list = [];
  btn_tail = 0;
  epoll_fd = negsuc 0;
  exited = false;
  calls = [];
}

-- Ten buttons, and an eleventh whose file is open.
abbrev full : Buttons ℕ
full = record no_buttons {
  btn = record { fd = pos 4; pin = "3"; callback = none };
  btn_tail = 10;
  calls = Call.open_file "/sys/class/gpio/gpio3/value" (pos 4) ∷ [];
}

-- "A", and a byte that the font does not have.
puts-rendered_example :
    AllData (puts (65 ∷ 200 ∷ []))
    × (columns (puts (65 ∷ 200 ∷ [])) ≡ rendered (65 ∷ 200 ∷ []))
    × (length (columns (puts (65 ∷ 200 ∷ []))) ≡ 16)
puts-rendered_example = puts-rendered (65 ∷ 200 ∷ [])
