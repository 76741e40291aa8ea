-- ===== src/Daemon/Led.antt =====
-- src/06-mini-project/daemon/gpio/led.c: a LED behind /sys/class/gpio.
pub mod Descriptors
use Prim.Native.String.{String, ◌++◌}
use mse_ma_csel.Common.{
  ℕ, Bool, true, false, List, modify, Option, none, some, ◌∷◌, Proc, ◌==◌, if◌then◌else◌, ◌>>=◌,
  ◌>>◌, pure, gets, skip,
}
use mse_ma_csel.Common.Int.{ℤ, pos, negsuc, is_zero, is_num}
use mse_ma_csel.Daemon.Posix.{
  Call, Posix, close, write, pwrite, mutex_destroy, mutex_lock, mutex_unlock,
}

-- `LED_type`; any other value is invalid.
pub data LedType : Type 0 where
  led_status led_power other : LedType

-- The pin's number, `GPIO_LED_STATUS` or `GPIO_LED_POWER`.
abbrev pub pin_of : LedType → Option String
pin_of led_status = some "10"
pin_of led_power = some "362"
pin_of other = none

abbrev pub gpio_export : String
gpio_export = "/sys/class/gpio/export"

abbrev pub gpio_unexport : String
gpio_unexport = "/sys/class/gpio/unexport"

abbrev pub gpio_base : String
gpio_base = "/sys/class/gpio/gpio"

-- What a LED's procedures keep: `led->gpio`, and the calls made.
pub record LedState : Type 0 where
  pub gpio : ℤ
  pub calls : List Call

abbrev pub LedProc : Type 0 → Type 0
LedProc = Proc LedState

abbrev pub emit : Call → LedProc (Unit {0})
emit c s = (tt, record s { calls = c ∷ s.calls })

-- `open(path, ...)`
abbrev pub open_path : Posix → String → LedProc ℤ
open_path os path s =
    let fd = os.open_file path s.calls in
    (fd, record s { calls = Call.open_file path fd ∷ s.calls })

-- Opens a file, writes a text to it and closes it, with no look at the results.
unfoldable pub put : Posix → String → String → LedProc (Unit {0})
put os path text = do f ← open_path os path; emit (write f text); emit (close f)

-- `f == -1`
abbrev pub is_minus_one : ℤ → Bool
is_minus_one (negsuc ℕ.zero) = true
is_minus_one _ = false

module _ (os : Posix) where
  -- `LED_init` past its tests, for the text of the pin.
  unfoldable pub init_pin : String → LedProc ℤ
  init_pin pin = do
    put os gpio_unexport pin
    put os gpio_export pin
    put os (gpio_base ++ pin ++ "/direction") "out"
    f ← open_path os (gpio_base ++ pin ++ "/value")
    if is_minus_one f then pure (negsuc 0) else (do
      modify (λ s. record s { gpio = f })
      ret ← gets (λ s. os.mutex_init s.calls)
      emit (Call.mutex_init ret)
      if is_zero ret then pure (pos 0) else (do emit (close f); pure (negsuc 0)))

  abbrev init_type : Option String → LedProc ℤ
  init_type none = pure (negsuc 0)
  init_type (some pin) = init_pin pin

  -- `led` is false for NULL.
  unfoldable pub led_init : Bool → LedType → LedProc ℤ
  led_init false type = pure (negsuc 0)
  led_init true type = init_type (pin_of type)

  unfoldable pub led_toggle : Bool → LedProc (Unit {0})
  led_toggle false = skip
  led_toggle true = do
    emit mutex_lock
    f ← gets (λ s. s.gpio)
    value ← gets (λ s. os.pread f s.calls)
    emit (Call.pread f value)
    if value == b'0' then emit (pwrite f "1") else emit (pwrite f "0")
    emit mutex_unlock

unfoldable pub led_on : Bool → LedProc (Unit {0})
led_on false = skip
led_on true = do emit mutex_lock; f ← gets (λ s. s.gpio); emit (pwrite f "1"); emit mutex_unlock

unfoldable pub led_off : Bool → LedProc (Unit {0})
led_off false = skip
led_off true = do emit mutex_lock; f ← gets (λ s. s.gpio); emit (pwrite f "0"); emit mutex_unlock

unfoldable pub led_deinit : Bool → LedProc (Unit {0})
led_deinit false = skip
led_deinit true = do emit mutex_destroy; f ← gets (λ s. s.gpio); emit (close f)
