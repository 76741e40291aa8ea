-- ===== src/System/Commands.antt =====
-- A command line, from its arguments to the kernel's variables.
use Prim.Native.String.{String}
use mse_ma_csel.Common.{
  false, ℕ, ◌+◌, ◌-◌, ◌^◌, ◌≤◌, ◌<◌, ◌≡◌, some, List, get_elem?, ◌⊎◌, [], ◌∷◌, if◌then◌else◌, ltb,
  ◌&&◌, arith,
}
use mse_ma_csel.Common.Int.{ℤ, pos, negsuc, is_zero, is_neg}
use mse_ma_csel.Common.Words.{u32-lt}
use mse_ma_csel.Common.Text.{Format, IsFaithful}
use mse_ma_csel.Kernel.State.{Linux, Kernel}
use mse_ma_csel.Daemon.State.{cb_mutex, mutex_lock, Daemon}
use mse_ma_csel.Daemon.App.{set_period, set_mode}
use mse_ma_csel.Daemon.Ipc.{
  IpcMsg, process_message, cmd_set_mode, cmd_set_period, cmd_inc_period, cmd_dec_period,
}
use mse_ma_csel.Cli.{int_of, Socket, main}
use mse_ma_csel.Daemon.Main.{ipc_cbs}
use mse_ma_csel.System.{files}
use mse_ma_csel.System.Link.{
  IsUp, Control, control, accepted, Becomes, sysfs_set_period_writes, sysfs_set_mode_writes,
}
use mse_ma_csel.System.Operations.{increase_period_lem, decrease_period_lem}

-- The command line sends a message, and the daemon's answer to it makes the control `c`.
abbrev pub Delivers :
    (String → ℤ) → Socket → Linux → Format → Daemon Kernel → List String → Control → Type 0
Delivers atoi socket linux text d argv c =
    (msg : IpcMsg) × ((main atoi socket argv).1 ≡ some msg)
    × Becomes c (process_message (ipc_cbs (files linux text) text) msg d).1.world

module _ (atoi : String → ℤ) (socket : Socket) (connected : is_neg socket.fd ≡ false)
    (linux : Linux) (text : Format) (faithful : IsFaithful text) (d : Daemon Kernel)
    (up : IsUp d.world) where
  abbrev under_lock : Daemon Kernel
  under_lock = record d { locks = mutex_lock cb_mutex ∷ d.locks }

  -- With a socket, over a loaded module in order, and where numbers read back as printed: `period
  -- <ms>`, for a number of ms from 1 up to 2 ^ 31 - 1, is sent as a message whose processing sets
  -- the period to it in manual mode, and changes nothing in automatic mode.
  pub cli_period :
      (prog ms : String) (n : ℕ)
      → atoi ms ≡ pos n
      → 0 < n
      → n < 2 ^ 31
      → Delivers atoi socket linux text d (prog ∷ "period" ∷ ms ∷ []) (record (control d.world) {
        period = accepted d.world.current_mode n d.world.current_period;
      })
  unfolding main process_message set_period
  cli_period prog ms n parsed positive small = (
    record { command = pos cmd_set_period; value = n },
    ground arith,
    ground (arith, sysfs_set_period_writes linux text faithful under_lock up n),
  )

  -- With a socket, over a loaded module in order, and where numbers read back as printed: `mode
  -- 0` and `mode 1` are sent as a message whose processing sets that mode, and keeps the period.
  pub cli_mode :
      (prog arg : String) (n : ℕ)
      → atoi arg ≡ pos n
      → n ≤ 1
      → Delivers atoi socket linux text d
          (prog ∷ "mode" ∷ arg ∷ [])
          (record (control d.world) { mode = pos n })
  unfolding main process_message set_mode
  cli_mode prog arg n parsed valid = (
    record { command = pos cmd_set_mode; value = n },
    ground arith,
    ground (arith, sysfs_set_mode_writes linux text faithful under_lock up n),
  )

  -- With a socket, over a loaded module in order, and where numbers read back as printed: `inc`,
  -- which raises the frequency, is sent as a message whose processing lowers the period by 50 in
  -- manual mode, if more than 50 is there, and else changes nothing.
  pub cli_inc :
      (prog : String)
      → Delivers atoi socket linux text d (prog ∷ "inc" ∷ []) (record (control d.world) {
        period =
            if is_zero d.world.current_mode && ltb 50 d.world.current_period
            then d.world.current_period - 50
            else d.world.current_period;
      })
  unfolding main process_message
  cli_inc prog = (
    record { command = pos cmd_dec_period; value = 0 },
    ground arith,
    ground (arith, decrease_period_lem linux text faithful under_lock up),
  )

  -- With a socket, over a loaded module in order, where numbers read back as printed, and while
  -- the period is below 2 ^ 32 - 50, `dec`, which lowers the frequency, is sent as a message
  -- whose processing raises the period by 50 in manual mode, and changes nothing in automatic
  -- mode.
  pub cli_dec :
      (prog : String)
      → d.world.current_period + 50 < 2 ^ 32
      → Delivers atoi socket linux text d (prog ∷ "dec" ∷ []) (record (control d.world) {
        period =
            if is_zero d.world.current_mode
            then d.world.current_period + 50
            else d.world.current_period;
      })
  unfolding main process_message
  cli_dec prog small = (
    record { command = pos cmd_inc_period; value = 0 },
    ground arith,
    ground (arith, increase_period_lem linux text faithful under_lock up),
  )

  -- With a socket, over a loaded module in order and in manual mode, and where numbers read back
  -- as printed: a negative period from -2 ^ 31 on is not refused; it is read as 2 ^ 32 minus its
  -- size, and the LED is given the negative number.
  pub cli_negative_period :
      (prog ms : String) (n : ℕ)
      → atoi ms ≡ negsuc n
      → n < 2 ^ 31
      → d.world.current_mode ≡ pos 0
      → (msg : IpcMsg) × ((main atoi socket (prog ∷ "period" ∷ ms ∷ [])).1 ≡ some msg)
        × let k = (process_message (ipc_cbs (files linux text) text) msg d).1.world in
          (k.current_period ≡ 2 ^ 32 - 1 - n) × (k.blink_period_ms ≡ negsuc n)
  unfolding main process_message set_period
  cli_negative_period prog ms n parsed small manual =
      let p = 2 ^ 32 - 1 - n in
      let set = sysfs_set_period_writes linux text faithful under_lock up p in
      (
        record { command = pos cmd_set_period; value = p },
        ground arith,
        (ground (arith, set), ground (arith, set)),
      )

-- A message that the daemon understands: mode 0 or 1, a period that is not zero, or a step.
abbrev pub IsValidMsg : IpcMsg → Type 0
IsValidMsg msg =
    ((msg.command ≡ pos cmd_set_mode) × (msg.value ≤ 1))
    ⊎ ((msg.command ≡ pos cmd_set_period) × (0 < msg.value) × (msg.value < 2 ^ 32))
    ⊎ ((msg.command ≡ pos cmd_inc_period) × (msg.value ≡ 0))
    ⊎ ((msg.command ≡ pos cmd_dec_period) × (msg.value ≡ 0))

-- Whatever the arguments are, a message that is sent is one that the daemon understands: mode 0
-- or 1, a period that is not zero, or a step with the value 0.
pub cli_sends_valid :
    (atoi : String → ℤ) (socket : Socket) (argv : List String) {msg : IpcMsg}
    → (main atoi socket argv).1 ≡ some msg
    → IsValidMsg msg
unfolding main
cli_sends_valid atoi socket argv sent = ground (arith, u32-lt (int_of atoi (get_elem? argv 2)))
