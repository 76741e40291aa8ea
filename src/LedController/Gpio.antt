-- ===== src/LedController/Gpio.antt =====
-- led.c and button.c of src/03-led-controller: a pin's files are opened, with no look at the
-- results.
use Prim.Native.String.{String, ◌++◌}
use mse_ma_csel.Common.{◌≡◌, List, some, ◌∷◌, ◌>>◌, arith, if◌then◌else◌}
use mse_ma_csel.Common.Int.{ℤ, is_neg}
use mse_ma_csel.Daemon.Posix.{Posix, open_fds, pwrite}
use mse_ma_csel.Daemon.Led.{LedState, LedProc, gpio_export, gpio_unexport, emit, open_path, put}
use mse_ma_csel.Daemon.Led.Descriptors.{put-fds}

module _ (os : Posix) where
  unfoldable pub led_open : String → String → LedProc ℤ
  led_open gpio_path pin = do
    put os gpio_unexport pin
    put os gpio_export pin
    put os (gpio_path ++ "/direction") "out"
    open_path os (gpio_path ++ "/value")

  unfoldable pub btn_open : String → String → LedProc ℤ
  btn_open gpio_path pin = do
    put os gpio_unexport pin
    put os gpio_export pin
    put os (gpio_path ++ "/direction") "in"
    put os (gpio_path ++ "/edge") "both"
    open_path os (gpio_path ++ "/value")

unfoldable pub led_on : ℤ → LedProc (Unit {0})
led_on led = emit (pwrite led "1")

unfoldable pub led_off : ℤ → LedProc (Unit {0})
led_off led = emit (pwrite led "0")

-- The descriptors after an `open` whose result is `fd`.
abbrev pub with_fd : ℤ → List ℤ → List ℤ
with_fd fd gs = if is_neg fd then gs else fd ∷ gs

-- Whatever calls fail, `led_open` and `btn_open` leave open just the descriptor that they return,
-- if it is one.
pub open-fds :
    (os : Posix) (gpio_path pin : String) (s : LedState) (gs : List ℤ)
    → open_fds s.calls ≡ some gs
    → let (led, s') = led_open os gpio_path pin s in
      let (btn, s'') = btn_open os gpio_path pin s in
      (open_fds s'.calls ≡ some (with_fd led gs)) × (open_fds s''.calls ≡ some (with_fd btn gs))
unfolding led_open btn_open
open-fds os gpio_path pin s gs h =
    let s1 = (put os gpio_unexport pin s).1 in
    let s2 = (put os gpio_export pin s1).1 in
    let s3 = (put os (gpio_path ++ "/direction") "out" s2).1 in
    let t3 = (put os (gpio_path ++ "/direction") "in" s2).1 in
    ground (
      arith,
      put-fds os gpio_unexport pin s gs h,
      put-fds os gpio_export pin s1 gs,
      put-fds os (gpio_path ++ "/direction") "out" s2 gs,
      put-fds os (gpio_path ++ "/direction") "in" s2 gs,
      put-fds os (gpio_path ++ "/edge") "both" t3 gs,
    )
