-- ===== src/Kernel/Monitor/BlinkFailure.antt =====
-- `blink_init` cannot report a failure, and `blink_exit` does not ask for one.
use mse_ma_csel.Common.{◌≡◌, ◌≢◌, Bool, true, false, List, ◌∷◌, some, none, refl, arith}
use mse_ma_csel.Common.Int.{pos}
use mse_ma_csel.Kernel.State.{
  Linux, Kernel, Call, mutex_lock, mutex_unlock, sysfs_lock, class_create, gpio_free, kthread_stop,
  blink_task, regulator_task, null, valid, sysfs_cbs, module_cbs, boot,
}
use mse_ma_csel.Kernel.Temp.{temp_init, temp_exit}
use mse_ma_csel.Kernel.Blink.{blink_init, blink_exit}
use mse_ma_csel.Kernel.Sysfs.{temp_regulator_sysfs_init, temp_regulator_sysfs_exit}
use mse_ma_csel.Kernel.Regulator.{start_thread, regulator_init, regulator_exit}
use mse_ma_csel.Kernel.Module.{temp_regulator_init, temp_regulator_exit}
use mse_ma_csel.Kernel.Monitor.{Held, follow, held}
use mse_ma_csel.Kernel.Monitor.Handlers.{Statics}
use mse_ma_csel.Kernel.Monitor.Lifecycle.{
  HasAnswers, loaded, loaded_statics, At, mapped, mapped_statics, temp_init-At,
}

-- What the module holds with its files, and loaded: neither the pin nor a thread of the LED.
abbrev dark_filed : Bool → Held
dark_filed res = record (mapped res) { class = true; device = true; group = true }

abbrev dark_filed_statics : Bool → Statics
dark_filed_statics res = record (mapped_statics res) {
  sysfs_class = valid;
  sysfs_device = valid;
  device_cbs = sysfs_cbs;
}

abbrev pub dark : Bool → Held
dark res = record (loaded res) { gpio = false; blinker = false }

abbrev dark_statics : Bool → Statics
dark_statics res = record (loaded_statics res) { blink_thread = null }

blink_init-dark :
    (linux : Linux) (res : Bool) (k : Kernel)
    → linux.gpio_request k.calls ≢ pos 0
    → At (mapped res) (mapped_statics res) k
    → At (mapped res) (mapped_statics res) (blink_init linux k).1
unfolding blink_init
blink_init-dark linux res k busy h = ground arith

sysfs_init-dark :
    (linux : Linux) (res : Bool) (k : Kernel)
    → HasAnswers linux
    → At (mapped res) (mapped_statics res) k
    → let (ret, k') = temp_regulator_sysfs_init linux (some sysfs_cbs) k in
      ret ≡ pos 0 → At (dark_filed res) (dark_filed_statics res) k'
unfolding temp_regulator_sysfs_init
sysfs_init-dark linux res k answers h =
    let cs = mutex_unlock sysfs_lock ∷ mutex_lock sysfs_lock ∷ k.calls in
    ground (arith, answers.classes cs, answers.devices (class_create (linux.class_create cs) ∷ cs))

start_thread-dark :
    (linux : Linux) (res : Bool) (k : Kernel)
    → HasAnswers linux
    → At (dark_filed res) (dark_filed_statics res) k
    → let (ret, k') = start_thread linux k in ret ≡ pos 0 → At (dark res) (dark_statics res) k'
unfolding start_thread temp_regulator_sysfs_exit
start_thread-dark linux res k answers h = ground (arith, answers.threads regulator_task k.calls)

regulator_init-dark :
    (linux : Linux) (res : Bool) (k : Kernel)
    → HasAnswers linux
    → At (mapped res) (mapped_statics res) k
    → let (ret, k') = regulator_init linux (some module_cbs) k in
      ret ≡ pos 0 → At (dark res) (dark_statics res) k'
unfolding regulator_init
regulator_init-dark linux res k answers h =
    let k' : Kernel = record k { regulator_cbs = module_cbs } in
    ground (
      arith,
      sysfs_init-dark linux res k' answers,
      start_thread-dark linux res (temp_regulator_sysfs_init linux (some sysfs_cbs) k').1 answers,
    )

init-dark :
    (linux : Linux)
    → HasAnswers linux
    → ((cs : List Call) → linux.gpio_request cs ≢ pos 0)
    → let (ret, k) = temp_regulator_init linux boot in
      let res = (temp_init linux boot).1.temp_res in
      ret ≡ pos 0 → At (dark res) (dark_statics res) k
unfolding temp_regulator_init
init-dark linux answers busy =
    let k = (temp_init linux boot).1 in
    let b = (blink_init linux k).1 in
    ground (
      arith,
      temp_init-At linux boot (record { kept = refl; unchanged = refl }),
      blink_init-dark linux k.temp_res k (busy k.calls),
      regulator_init-dark linux k.temp_res b answers,
    )

exit-dark :
    (res : Bool) (k : Kernel)
    → At (dark res) (dark_statics res) k
    → let r = (regulator_exit k).1 in
      (held r.calls ≡ some (mapped res))
      × ((blink_exit r).1.calls ≡ gpio_free ∷ kthread_stop blink_task null ∷ r.calls)
      × (held (temp_regulator_exit k).1.calls ≡ none)
unfolding temp_regulator_exit regulator_exit temp_regulator_sysfs_exit blink_exit temp_exit
exit-dark res k h = ground arith

-- Where the kernel's calls return pointers or errors, every request of the LED's pin is refused,
-- and loading succeeds all the same: the load breaks no rule and holds neither the pin nor a thread
-- of the LED, and no rule is broken by the regulator's part of the unload, which comes first. Then
-- `blink_exit` stops the thread NULL and frees the pin, and each of these calls is against the
-- rules for what is held there; so the whole unload breaks them.
pub busy_pin_breaks_exit :
    (linux : Linux)
    → HasAnswers linux
    → ((cs : List Call) → linux.gpio_request cs ≢ pos 0)
    → (temp_regulator_init linux boot).0 ≡ pos 0
    → let k = (temp_regulator_init linux boot).1 in
      let r = (regulator_exit k).1 in
      let res = (temp_init linux boot).1.temp_res in
      (held k.calls ≡ some (dark res))
      × (held r.calls ≡ some (mapped res))
      × ((blink_exit r).1.calls ≡ gpio_free ∷ kthread_stop blink_task null ∷ r.calls)
      × (follow (kthread_stop blink_task null) (mapped res) ≡ none)
      × (follow gpio_free (mapped res) ≡ none)
      × (held (temp_regulator_exit k).1.calls ≡ none)
busy_pin_breaks_exit linux answers busy done =
    let res = (temp_init linux boot).1.temp_res in
    let h = init-dark linux answers busy done in
    let (kept, ends, broken) = exit-dark res (temp_regulator_init linux boot).1 h in
    (h.kept, kept, ends, refl, refl, broken)
