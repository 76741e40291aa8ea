-- ===== src/Kernel/Monitor/Lifecycle.antt =====
-- Loading and unloading: what is taken is given back, once.
use mse_ma_csel.Common.{ℕ, suc, ◌≡◌, ◌≢◌, ◌⊎◌, Bool, true, List, [], ◌∷◌, some, refl, arith}
use mse_ma_csel.Common.Int.{pos}
use mse_ma_csel.Kernel.State.{
  Linux, Kernel, Call, mutex_lock, mutex_unlock, sysfs_lock, class_create, Task, blink_task,
  regulator_task, Ptr, valid, err_ptr, sysfs_cbs, module_cbs, boot,
}
use mse_ma_csel.Kernel.Module.{temp_regulator_init, temp_regulator_exit}
use mse_ma_csel.Kernel.Monitor.{Held, nothing, held}
use mse_ma_csel.Kernel.Temp.{temp_init, temp_exit}
use mse_ma_csel.Kernel.Blink.{blink_init, blink_exit}
use mse_ma_csel.Kernel.Regulator.{start_thread, regulator_init, regulator_exit}
use mse_ma_csel.Kernel.Sysfs.{temp_regulator_sysfs_init, temp_regulator_sysfs_exit}
use mse_ma_csel.Kernel.Monitor.Handlers.{Statics, statics, IsQuiet}

-- A pointer or an error, as `kthread_run`, `class_create` and `device_create` return it.
abbrev pub IsAnswer : Ptr → Type 0
IsAnswer p = (p ≡ valid) ⊎ ((e : ℕ) × (p ≡ err_ptr (suc e)))

pub record HasAnswers (linux : Linux) : Type 0 where
  pub threads : (t : Task) (cs : List Call) → IsAnswer (linux.kthread_run t cs)
  pub classes : (cs : List Call) → IsAnswer (linux.class_create cs)
  pub devices : (cs : List Call) → IsAnswer (linux.device_create cs)

-- The LED's pin is free and its thread starts.
pub record HasLed (linux : Linux) : Type 0 where
  pub pin : (cs : List Call) → linux.gpio_request cs ≡ pos 0
  pub output : (cs : List Call) → linux.gpio_direction_output cs ≡ pos 0
  pub blinks : (cs : List Call) → linux.kthread_run blink_task cs ≡ valid

-- What the loaded module holds; the memory region may be missing, which is only warned of.
abbrev pub loaded : Bool → Held
loaded res = record {
  locks = [];
  region = res;
  mapping = true;
  gpio = true;
  blinker = true;
  regulator = true;
  class = true;
  device = true;
  group = true;
}

abbrev pub loaded_statics : Bool → Statics
loaded_statics res = record {
  temp_res = res;
  temp_reg = true;
  blink_thread = valid;
  regulator_thread = valid;
  sysfs_class = valid;
  sysfs_device = valid;
  device_cbs = sysfs_cbs;
}

-- A loaded module.
abbrev pub IsLoaded : Bool → Kernel → Type 0
IsLoaded res k = IsQuiet (loaded res) (loaded_statics res) k

-- The module between two calls of its init: what is held, and the variables.
pub record At (h : Held) (st : Statics) (k : Kernel) : Type 0 where
  pub kept : held k.calls ≡ some h
  pub unchanged : statics k ≡ st

abbrev pub mapped : Bool → Held
mapped res = record nothing { region = res; mapping = true }

abbrev pub mapped_statics : Bool → Statics
mapped_statics res = record (statics boot) { temp_res = res; temp_reg = true }

abbrev blinking : Bool → Held
blinking res = record (mapped res) { gpio = true; blinker = true }

abbrev blinking_statics : Bool → Statics
blinking_statics res = record (mapped_statics res) { blink_thread = valid }

pub temp_init-At :
    (linux : Linux) (k : Kernel)
    → At nothing (statics boot) k
    → let (ret, k') = temp_init linux k in
      ((ret ≡ pos 0) × At (mapped k'.temp_res) (mapped_statics k'.temp_res) k')
      ⊎ ((ret ≢ pos 0) × At nothing (statics boot) k')
unfolding temp_init
temp_init-At linux k h = ground arith

blink_init-At :
    (linux : Linux) (res : Bool) (k : Kernel)
    → HasLed linux
    → At (mapped res) (mapped_statics res) k
    → At (blinking res) (blinking_statics res) (blink_init linux k).1
unfolding blink_init
blink_init-At linux res k led h = grind (arith, led.pin, led.output, led.blinks)

abbrev filed : Bool → Held
filed res = record (blinking res) { class = true; device = true; group = true }

abbrev filed_statics : Bool → Statics
filed_statics res = record (blinking_statics res) {
  sysfs_class = valid;
  sysfs_device = valid;
  device_cbs = sysfs_cbs;
}

-- The regulator failed and has undone what it did.
record IsUndone (res : Bool) (k : Kernel) : Type 0 where
  kept : held k.calls ≡ some (blinking res)
  region : k.temp_res ≡ res
  register : k.temp_reg ≡ true
  thread : k.blink_thread ≡ valid

sysfs_init-At :
    (linux : Linux) (res : Bool) (k : Kernel)
    → HasAnswers linux
    → At (blinking res) (blinking_statics res) k
    → let (ret, k') = temp_regulator_sysfs_init linux (some sysfs_cbs) k in
      ((ret ≡ pos 0) × At (filed res) (filed_statics res) k') ⊎ ((ret ≢ pos 0) × IsUndone res k')
unfolding temp_regulator_sysfs_init
sysfs_init-At linux res k answers h =
    let cs = mutex_unlock sysfs_lock ∷ mutex_lock sysfs_lock ∷ k.calls in
    ground (arith, answers.classes cs, answers.devices (class_create (linux.class_create cs) ∷ cs))

start_thread-At :
    (linux : Linux) (res : Bool) (k : Kernel)
    → HasAnswers linux
    → At (filed res) (filed_statics res) k
    → let (ret, k') = start_thread linux k in
      ((ret ≡ pos 0) × IsLoaded res k') ⊎ ((ret ≢ pos 0) × IsUndone res k')
unfolding start_thread temp_regulator_sysfs_exit
start_thread-At linux res k answers h = ground (arith, answers.threads regulator_task k.calls)

regulator_init-At :
    (linux : Linux) (res : Bool) (k : Kernel)
    → HasAnswers linux
    → At (blinking res) (blinking_statics res) k
    → let (ret, k') = regulator_init linux (some module_cbs) k in
      ((ret ≡ pos 0) × IsLoaded res k') ⊎ ((ret ≢ pos 0) × IsUndone res k')
unfolding regulator_init
regulator_init-At linux res k answers h =
    let k' : Kernel = record k { regulator_cbs = module_cbs } in
    ground (
      arith,
      sysfs_init-At linux res k' answers,
      start_thread-At linux res (temp_regulator_sysfs_init linux (some sysfs_cbs) k').1 answers,
    )

undo :
    (res : Bool) (k : Kernel)
    → IsUndone res k
    → held (temp_exit (blink_exit k).1).1.calls ≡ some nothing
unfolding blink_exit temp_exit
undo res k h = ground arith

-- Where the kernel's calls return pointers or errors and the LED's pin and thread are to be had:
-- loading either succeeds and the module is loaded, or it reports an error and holds nothing, no
-- thread, file, pin, mapping or region.
pub temp_regulator_init_all_or_nothing :
    (linux : Linux)
    → HasAnswers linux
    → HasLed linux
    → let (ret, k) = temp_regulator_init linux boot in
      ((ret ≡ pos 0) × IsLoaded k.temp_res k) ⊎ ((ret ≢ pos 0) × (held k.calls ≡ some nothing))
unfolding temp_regulator_init
temp_regulator_init_all_or_nothing linux answers led =
    let k = (temp_init linux boot).1 in
    let b = (blink_init linux k).1 in
    ground (
      arith,
      temp_init-At linux boot (record { kept = refl; unchanged = refl }),
      blink_init-At linux k.temp_res k led,
      regulator_init-At linux k.temp_res b answers,
      undo k.temp_res (regulator_init linux (some module_cbs) b).1,
    )

-- Unloading a loaded module stops both threads, removes the files and gives everything back.
pub temp_regulator_exit_clean :
    (res : Bool) (k : Kernel) → IsLoaded res k → held (temp_regulator_exit k).1.calls ≡ some nothing
unfolding temp_regulator_exit regulator_exit temp_regulator_sysfs_exit blink_exit temp_exit
temp_regulator_exit_clean res k h = ground arith
