-- ===== src/Daemon/Ipc/Life.antt =====
-- The server's socket, name and thread over its life.
use mse_ma_csel.Common.{
  Bool, true, false, not, Option, none, some, List, [], ◌∷◌, ◌≡◌, ◌⊎◌, if◌then◌else◌, ◌==◌, refl,
  Bool-cases, inl, inr, ◌>>◌, skip, arith,
}
use mse_ma_csel.Common.Int.{ℤ, pos, negsuc, is_zero, is_neg, is_num, leb_ℤ}
use mse_ma_csel.Daemon.State.{Daemon, DaemonProc}
use mse_ma_csel.Daemon.Ipc.Message.{IpcMsg, IpcCallbacks, process_message}
use mse_ma_csel.Daemon.Ipc.Server.{
  Call, socket, unlink, bind, close, shutdown, pthread_create, pthread_join, lock_cb_mutex,
  unlock_cb_mutex, Answers, Server, start_ipc_server, stop_ipc_server, Turn, msg_size,
  ipc_thread_func,
}

-- What the process holds: the open socket, the name in the file system, the thread, `cb_mutex`.
pub record Held : Type 0 where
  pub open_fd : Option ℤ
  pub named : Bool
  pub thread : Bool
  pub mutex : Bool

abbrev nothing : Held
nothing = record { open_fd = none; named = false; thread = false; mutex = false }

abbrev same_fd : ℤ → ℤ → Bool
same_fd (pos m) (pos n) = m == n
same_fd (negsuc m) (negsuc n) = m == n
same_fd _ _ = false

-- A descriptor is closed, bound or shut down only while it is the open one.
abbrev with_fd : ℤ → Option ℤ → Held → Option Held
with_fd fd none h = none
with_fd fd (some g) h = if same_fd fd g then some h else none

abbrev follow : Call → Held → Option Held
follow (socket fd) h = if is_neg fd then some h else some (record h { open_fd = some fd })
follow unlink h = some (record h { named = false })
follow (bind fd ret) h = with_fd fd h.open_fd (record h { named = not (is_neg ret) })
follow (close fd) h = with_fd fd h.open_fd (record h { open_fd = none })
follow (shutdown fd) h = with_fd fd h.open_fd h
follow (pthread_create ret) h = some (record h { thread = is_zero ret })
follow pthread_join h = if h.thread then some (record h { thread = false }) else none
follow lock_cb_mutex h = if h.mutex then none else some (record h { mutex = true })
follow unlock_cb_mutex h = if h.mutex then some (record h { mutex = false }) else none

abbrev then_follow : Call → Option Held → Option Held
then_follow c none = none
then_follow c (some h) = follow c h

abbrev pub held : List Call → Option Held
held [] = some nothing
held (c ∷ cs) = then_follow c (held cs)

module _ {C : Type 0} where
  -- Stopped, and nothing is held.
  pub record IsStopped (s : Server C) : Type 0 where
    pub idle : s.is_running ≡ false
    pub no_fd : is_neg s.server_fd ≡ true
    pub clean : held s.calls ≡ some nothing

  -- Running: the socket is open and has its name, and the thread is there.
  pub record IsServing (s : Server C) : Type 0 where
    pub busy : s.is_running ≡ true
    pub valid : is_neg s.server_fd ≡ false
    pub holds :
        held s.calls
        ≡ some (record { open_fd = some s.server_fd; named = true; thread = true; mutex = false })

  -- Starting a stopped server either returns 0 and it serves, with the callbacks that were given,
  -- or returns -1 and it is stopped, with no socket, name or thread left behind.
  pub start_ipc_server_all_or_nothing :
      (os : Answers) (cbs : C) (s : Server C)
      → IsStopped s
      → let (ret, s') = start_ipc_server os (some cbs) s in
        ((ret ≡ pos 0) × IsServing s' × (s'.current_cbs ≡ some cbs))
        ⊎ ((ret ≡ negsuc 0) × IsStopped s')
  unfolding start_ipc_server
  start_ipc_server_all_or_nothing os cbs s h = ground arith

  -- A second start is refused, and changes nothing.
  pub start_ipc_server_twice :
      (os : Answers) (cbs : Option C) (s : Server C)
      → IsServing s
      → start_ipc_server os cbs s ≡ (negsuc 0, s)
  unfolding start_ipc_server
  start_ipc_server_twice os cbs s h = ground arith

  -- Stopping a serving server returns 0, closes the socket, waits for the thread, removes the
  -- name and forgets the callbacks.
  pub stop_ipc_server_clean :
      (s : Server C)
      → IsServing s
      → let (ret, s') = stop_ipc_server s in (ret ≡ pos 0) × IsStopped s' × (s'.current_cbs ≡ none)
  unfolding stop_ipc_server
  stop_ipc_server_clean s h = ground arith

-- The messages of the right size, in order.
abbrev pub messages : List Turn → List IpcMsg
messages [] = []
messages (t ∷ ts) = if is_num t.bytes_read msg_size then t.msg ∷ messages ts else messages ts

module _ {W : Type 0} (cbs : IpcCallbacks W) where
  abbrev pub process_all : List IpcMsg → DaemonProc W (Unit {0})
  process_all [] = skip
  process_all (m ∷ ms) = process_message cbs m >> process_all ms

  -- The server runs on at each of these turns.
  abbrev pub RunsOn : List Turn → Type 0
  RunsOn [] = Unit {0}
  RunsOn (t ∷ ts) = (t.running ≡ true) × (t.still_running ≡ true) × RunsOn ts

  -- While the server runs, its thread processes the messages of the right size, each once and in
  -- the order in which they come; a message of another size or an error has no effect and does not
  -- end the thread.
  pub ipc_thread_processes :
      (ts : List Turn) (d : Daemon W)
      → RunsOn ts
      → ipc_thread_func cbs ts d ≡ process_all (messages ts) d
  unfolding ipc_thread_func
  ipc_thread_processes [] d on = refl
  ipc_thread_processes (t ∷ ts) d (run, still, on) =
      elim (Bool-cases (is_num t.bytes_read msg_size)) [
        | inl whole ↦ rw (run, whole) (ipc_thread_processes ts (process_message cbs t.msg d).1 on)
        | inr other ↦ elim (Bool-cases (leb_ℤ t.bytes_read (pos 0))) [
          | inl failed ↦ rw (run, other, failed, still) (ipc_thread_processes ts d on)
          | inr short ↦ rw (run, other, short) (ipc_thread_processes ts d on)
        ]
      ]
