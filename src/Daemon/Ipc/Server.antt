-- ===== src/Daemon/Ipc/Server.antt =====
-- The life of the server of src/06-mini-project/daemon/ipc/ipc_server.c and the loop of its thread.
-- The calls of the C library are recorded, newest first, with their answers, which any functions of
-- the calls made so far may give. The texts that are printed are left out.
use mse_ma_csel.Common.{
  ℕ, Bool, true, false, not, ◌&&◌, Option, none, some, List, [], ◌∷◌, Proc, if◌then◌else◌, ◌>>=◌,
  ◌>>◌, pure, gets, modify, when, skip,
}
use mse_ma_csel.Common.Int.{ℤ, pos, negsuc, is_zero, is_neg, is_num, leb_ℤ}
use mse_ma_csel.Daemon.State.{DaemonProc}
use mse_ma_csel.Daemon.Ipc.Message.{IpcMsg, IpcCallbacks, process_message}

pub data Call : Type 0 where
  socket : ℤ → Call
  unlink : Call
  bind : ℤ → ℤ → Call
  close shutdown : ℤ → Call
  pthread_create : ℤ → Call
  pthread_join lock_cb_mutex unlock_cb_mutex : Call

-- The answers of `socket`, `bind` and `pthread_create`.
pub record Answers : Type 0 where
  pub socket : List Call → ℤ
  pub bind : List Call → ℤ
  pub pthread_create : List Call → ℤ

-- The variables of the module; `current_cbs` is `none` when it is all zeroes. `C` is the type of a
-- table of callbacks.
pub record Server (C : Type 0) : Type 0 where
  pub server_fd : ℤ
  pub is_running : Bool
  pub current_cbs : Option C
  pub calls : List Call

abbrev pub initial : {C : Type 0} → Server C
initial = record { server_fd = negsuc 0; is_running = false; current_cbs = none; calls = [] }

-- `fd == -1`
abbrev is_minus_one : ℤ → Bool
is_minus_one (negsuc ℕ.zero) = true
is_minus_one _ = false

module _ {C : Type 0} where
  abbrev emit : Call → Proc (Server C) (Unit {0})
  emit c s = (tt, record s { calls = c ∷ s.calls })

  abbrev set_fd : ℤ → Proc (Server C) (Unit {0})
  set_fd fd = modify (λ s. record s { server_fd = fd })

  -- `if (cbs) current_cbs = *cbs;`
  abbrev save_callbacks : Option C → Proc (Server C) (Unit {0})
  save_callbacks none = skip
  save_callbacks (some cbs) = modify (λ s. record s { current_cbs = some cbs })

  -- From `pthread_create` on, with the socket bound.
  abbrev start_thread : Answers → ℤ → Proc (Server C) ℤ
  start_thread os fd = do
    modify (λ s. record s { is_running = true })
    ret ← gets (λ s. os.pthread_create s.calls)
    emit (Call.pthread_create ret)
    if is_zero ret then pure (pos 0) else (do
      modify (λ s. record s { is_running = false })
      emit (Call.close fd)
      emit Call.unlink
      set_fd (negsuc 0)
      pure (negsuc 0))

  -- `cbs` may be NULL: `none`.
  unfoldable pub start_ipc_server : Answers → Option C → Proc (Server C) ℤ
  start_ipc_server os cbs = do
    running ← gets (λ s. s.is_running)
    if running then pure (negsuc 0) else (do
      emit Call.lock_cb_mutex
      save_callbacks cbs
      emit Call.unlock_cb_mutex
      fd ← gets (λ s. os.socket s.calls)
      emit (Call.socket fd)
      set_fd fd
      if is_neg fd then pure (negsuc 0) else (do
        emit Call.unlink
        ret ← gets (λ s. os.bind s.calls)
        emit (Call.bind fd ret)
        if is_neg ret
            then (do emit (Call.close fd); set_fd (negsuc 0); pure (negsuc 0))
            else start_thread os fd))

  unfoldable pub stop_ipc_server : Proc (Server C) ℤ
  stop_ipc_server = do
    running ← gets (λ s. s.is_running)
    if not running then pure (pos 0) else (do
      modify (λ s. record s { is_running = false })
      fd ← gets (λ s. s.server_fd)
      when (not (is_minus_one fd))
          (do emit (Call.shutdown fd); emit (Call.close fd); set_fd (negsuc 0))
      emit Call.pthread_join
      emit Call.unlink
      emit Call.lock_cb_mutex
      modify (λ s. record s { current_cbs = none })
      emit Call.unlock_cb_mutex
      pure (pos 0))

-- What one turn of the thread's loop meets: `is_running` at the head of the loop, what `recvfrom`
-- gives, and `is_running` after it.
pub record Turn : Type 0 where
  pub running : Bool
  pub bytes_read : ℤ
  pub msg : IpcMsg
  pub still_running : Bool

-- `sizeof(ipc_msg_t)`
abbrev pub msg_size : ℕ
msg_size = 8

module _ {W : Type 0} (cbs : IpcCallbacks W) where
  -- The loop, over the turns that it meets; a turn with a message of another size, or with an
  -- error, only prints.
  unfoldable pub ipc_thread_func : List Turn → DaemonProc W (Unit {0})
  ipc_thread_func [] = skip
  ipc_thread_func (t ∷ ts) =
      let rest = ipc_thread_func ts in
      if t.running
      then (if is_num t.bytes_read msg_size
          then (do process_message cbs t.msg; rest)
          else (if leb_ℤ t.bytes_read (pos 0) && not t.still_running then skip else rest))
      else skip
