-- ===== src/Cli.antt =====
-- src/06-mini-project/cli/main.c: the command line's arguments become a message for the daemon.
-- The texts that are printed are left out.
use Prim.Native.String.{String}
use text.Mathlib.Text.{◌==◌ as str_eq}
use mse_ma_csel.Common.{
  Bool, false, not, ◌&&◌, Option, none, some, List, length, get_elem?, ◌==◌, ltb, if◌then◌else◌,
}
use mse_ma_csel.Common.Int.{ℤ, pos, is_neg}
use mse_ma_csel.Common.Words.{u32}
use mse_ma_csel.Daemon.Ipc.{IpcMsg, cmd_set_mode, cmd_set_period, cmd_inc_period, cmd_dec_period}

-- How `process_arguments` ends.
pub data Exit : Type 0 where
  exit_success exit_failure : Exit

-- `strcmp(argv[i], s) == 0`; past the end there is no argument to compare.
abbrev is_arg : Option String → String → Bool
is_arg none s = false
is_arg (some a) s = str_eq a s

-- `atoi` of the C library gives an `int` for any text.
abbrev pub int_of : (String → ℤ) → Option String → ℤ
int_of atoi none = pos 0
int_of atoi (some a) = atoi a

-- The socket: whether it could be made, and the bytes that `sendto` says it has sent.
pub record Socket : Type 0 where
  pub fd : ℤ
  pub sent : IpcMsg → ℤ

-- `main` once the arguments are read.
abbrev send : Socket → Exit → IpcMsg → Exit × Option IpcMsg
send socket exit_failure msg = (exit_failure, none)
send socket exit_success msg =
    if is_neg socket.fd
    then (exit_failure, none)
    else (if is_neg (socket.sent msg) then exit_failure else exit_success, some msg)

module _ (atoi : String → ℤ) where
  unfoldable pub process_arguments : List String → IpcMsg → Exit × IpcMsg
  process_arguments argv msg =
      let argc = length argv in
      let verb = get_elem? argv 1 in
      let number = u32 (int_of atoi (get_elem? argv 2)) in
      if is_arg verb "mode" && argc == 3
      then (
        if not (number == 0) && not (number == 1) then exit_failure else exit_success,
        record { command = pos cmd_set_mode; value = number },
      )
      else if is_arg verb "period" && argc == 3
      then (
        if number == 0 then exit_failure else exit_success,
        record { command = pos cmd_set_period; value = number },
      )
      else if is_arg verb "dec" && argc == 2
      then (exit_success, record { command = pos cmd_inc_period; value = 0 })
      else if is_arg verb "inc" && argc == 2
      then (exit_success, record { command = pos cmd_dec_period; value = 0 })
      else (exit_failure, msg)

  -- `main`: its result, and the message that was handed to `sendto`.
  unfoldable pub main : Socket → List String → Exit × Option IpcMsg
  unfolding process_arguments
  main socket argv =
      if ltb (length argv) 2
      then (exit_failure, none)
      else let (status, msg) = process_arguments argv (record { command = pos 0; value = 0 }) in
        send socket status msg
