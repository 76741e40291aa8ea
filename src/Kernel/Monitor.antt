-- ===== src/Kernel/Monitor.antt =====
-- The rules of the kernel's calls, as a monitor that follows them and stops at the first misuse:
-- what is released must be held, a thread that is stopped must run, a register is read only while
-- it is mapped, locks are taken in the order sysfs, regulator, temperature and given back in
-- reverse, and no lock is held across a sleep or the end of a thread.
pub mod Handlers
pub mod Lifecycle
pub mod BlinkFailure
use mse_ma_csel.Common.{
  ℕ, Bool, true, false, not, ◌&&◌, Option, none, some, List, [], ◌∷◌, ltb, if◌then◌else◌,
}
use mse_ma_csel.Common.Int.{is_zero}
use mse_ma_csel.Kernel.State.{
  Lock, temp_lock, regulator_lock, sysfs_lock, Task, blink_task, regulator_task, Ptr, null, valid,
  err_ptr, Call, mutex_lock, mutex_unlock, request_mem_region, ioremap, release_mem_region, iounmap,
  ioread32, gpio_request, gpio_direction_output, gpio_free, gpio_set_value, kthread_run,
  kthread_stop, kthread_should_stop, msleep, class_create, device_create, class_destroy,
  device_destroy, sysfs_remove_group, sysfs_create_group, is_err,
}

pub record Held : Type 0 where
  pub locks : List Lock  -- the last one taken first
  pub region : Bool
  pub mapping : Bool
  pub gpio : Bool
  pub blinker : Bool
  pub regulator : Bool
  pub class : Bool
  pub device : Bool
  pub group : Bool

abbrev pub nothing : Held
nothing = record {
  locks = [];
  region = false;
  mapping = false;
  gpio = false;
  blinker = false;
  regulator = false;
  class = false;
  device = false;
  group = false;
}

abbrev pub rank : Lock → ℕ
rank sysfs_lock = 0
rank regulator_lock = 1
rank temp_lock = 2

-- A lock may be taken above those that are held.
abbrev pub is_above : Lock → List Lock → Bool
is_above l [] = true
is_above l (m ∷ _) = ltb (rank m) (rank l)

abbrev pub same : Lock → Lock → Bool
same sysfs_lock sysfs_lock = true
same regulator_lock regulator_lock = true
same temp_lock temp_lock = true
same _ _ = false

abbrev pub is_free : List Lock → Bool
is_free [] = true
is_free _ = false

abbrev pub require : Bool → Held → Option Held
require true h = some h
require false h = none

abbrev pub release_lock : Lock → List Lock → Held → Option Held
release_lock l [] h = none
release_lock l (m ∷ ms) h = require (same l m) (record h { locks = ms })

abbrev pub stop : Task → Ptr → Held → Option Held
stop blink_task valid h = require (h.blinker && is_free h.locks) (record h { blinker = false })
stop regulator_task valid h =
    require (h.regulator && is_free h.locks) (record h { regulator = false })
stop t null h = none
stop t (err_ptr e) h = none

abbrev pub started : Task → Held → Held
started blink_task h = record h { blinker = true }
started regulator_task h = record h { regulator = true }

abbrev pub follow : Call → Held → Option Held
follow (mutex_lock l) h = require (is_above l h.locks) (record h { locks = l ∷ h.locks })
follow (mutex_unlock l) h = release_lock l h.locks h
follow (request_mem_region done) h = require (not h.region) (record h { region = done })
follow (ioremap done) h = require (not h.mapping) (record h { mapping = done })
follow release_mem_region h = require h.region (record h { region = false })
follow iounmap h = require h.mapping (record h { mapping = false })
follow (ioread32 _) h = require h.mapping h
follow (gpio_request ret) h = require (not h.gpio) (record h { gpio = is_zero ret })
follow (gpio_direction_output _) h = require h.gpio h
follow gpio_free h = require h.gpio (record h { gpio = false })
follow (gpio_set_value _) h = require h.gpio h
follow (kthread_run t p) h = some (if is_err p then h else started t h)
follow (kthread_stop t p) h = stop t p h
follow (kthread_should_stop _ _) h = some h
follow (msleep _) h = require (is_free h.locks) h
follow (class_create p) h = require (not h.class) (record h { class = not (is_err p) })
follow (device_create p) h =
    require (h.class && not h.device) (record h { device = not (is_err p) })
follow class_destroy h = require (h.class && not h.device) (record h { class = false })
follow device_destroy h = require (h.device && not h.group) (record h { device = false })
follow sysfs_remove_group h = require h.group (record h { group = false })
follow (sysfs_create_group ret) h =
    require (h.device && not h.group) (record h { group = is_zero ret })

abbrev pub then_follow : Call → Option Held → Option Held
then_follow c none = none
then_follow c (some h) = follow c h

-- What is held after the calls, newest first; `none` after a misuse.
abbrev pub held : List Call → Option Held
held [] = some nothing
held (c ∷ cs) = then_follow c (held cs)
