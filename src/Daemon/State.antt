-- ===== src/Daemon/State.antt =====
-- What the daemon's threads share: its mutexes, the application's variables, and the world outside,
-- of any type `W`, which holds the files.
use mse_ma_csel.Common.{ℕ, Bool, List, ◌∷◌, Proc}
use mse_ma_csel.Common.Text.{Bytes}

-- The mutexes of app.c (`anim_lock`, `app_lock`), sysfs.c, ipc_server.c, and of a button and a LED.
pub data Mutex : Type 0 where
  anim_lock app_lock sysfs_lock cb_mutex btn_mutex led_mutex : Mutex

pub data LockEvent : Type 0 where
  mutex_lock mutex_unlock : Mutex → LockEvent

-- The attributes of /sys/class/temp_regulator/regulator.
pub data Attribute : Type 0 where
  path_temperature path_mode path_period_st path_period_set : Attribute

-- The files as the C library gives access to them: whether `fopen` succeeds, the text that is read,
-- and the effect of a text that is written.
pub record Files (W : Type 0) : Type 0 where
  pub can_open : Attribute → W → Bool
  pub read : Attribute → Proc W Bytes
  pub write : Attribute → Bytes → Proc W (Unit {0})

pub record Daemon (W : Type 0) : Type 0 where
  pub world : W
  pub locks : List LockEvent  -- newest first
  pub led : Bool  -- `led != NULL`
  pub pending_animations : ℕ  -- an `int`, at most the number of presses
  pub keep_running : Bool
  pub lights : List Bool  -- what was written to the LED, newest first

abbrev pub DaemonProc : Type 0 → Type 0 → Type 0
DaemonProc W = Proc (Daemon W)

module _ {W : Type 0} where
  abbrev pub lock : Mutex → DaemonProc W (Unit {0})
  lock m d = (tt, record d { locks = mutex_lock m ∷ d.locks })

  abbrev pub unlock : Mutex → DaemonProc W (Unit {0})
  unlock m d = (tt, record d { locks = mutex_unlock m ∷ d.locks })

  abbrev pub on_world : {A : Type 0} → Proc W A → DaemonProc W A
  on_world p d = let (a, w) = p d.world in (a, record d { world = w })
