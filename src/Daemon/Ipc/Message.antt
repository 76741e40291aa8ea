-- ===== src/Daemon/Ipc/Message.antt =====
-- The messages of src/06-mini-project/common/common_ipc.h, and their dispatch in
-- src/06-mini-project/daemon/ipc/ipc_server.c.
use mse_ma_csel.Common.{ℕ, Option, none, some, if◌then◌else◌, ◌>>◌, skip}
use mse_ma_csel.Common.Int.{ℤ, is_num}
use mse_ma_csel.Common.Words.{i32}
use mse_ma_csel.Daemon.State.{cb_mutex, DaemonProc, lock, unlock}

abbrev pub cmd_set_mode : ℕ
cmd_set_mode = 10

abbrev pub cmd_set_period : ℕ
cmd_set_period = 20

abbrev pub cmd_inc_period : ℕ
cmd_inc_period = 30

abbrev pub cmd_dec_period : ℕ
cmd_dec_period = 40

-- `ipc_msg_t`
pub record IpcMsg : Type 0 where
  pub command : ℤ
  pub value : ℕ  -- uint32_t

-- `struct ipc_callbacks_t`; `none` is a NULL pointer.
pub record IpcCallbacks (W : Type 0) : Type 0 where
  pub on_set_mode : Option (ℤ → DaemonProc W (Unit {0}))
  pub on_set_period : Option (ℕ → DaemonProc W (Unit {0}))
  pub on_inc_period : Option (DaemonProc W (Unit {0}))
  pub on_dec_period : Option (DaemonProc W (Unit {0}))

module _ {W : Type 0} where
  abbrev call_with :
      {A : Type 0} → Option (A → DaemonProc W (Unit {0})) → A → DaemonProc W (Unit {0})
  call_with none x = skip
  call_with (some f) x = f x

  abbrev call : Option (DaemonProc W (Unit {0})) → DaemonProc W (Unit {0})
  call none = skip
  call (some f) = f

  -- An unknown command is only reported.
  abbrev dispatch : IpcCallbacks W → IpcMsg → DaemonProc W (Unit {0})
  dispatch cbs msg =
      if is_num msg.command cmd_set_mode
      then call_with cbs.on_set_mode (i32 msg.value)
      else if is_num msg.command cmd_set_period
      then call_with cbs.on_set_period msg.value
      else if is_num msg.command cmd_inc_period
      then call cbs.on_inc_period
      else if is_num msg.command cmd_dec_period
      then call cbs.on_dec_period
      else skip

  unfoldable pub process_message : IpcCallbacks W → IpcMsg → DaemonProc W (Unit {0})
  process_message cbs msg = do lock cb_mutex; dispatch cbs msg; unlock cb_mutex
