-- ===== src/Daemon/Led/Descriptors.antt =====
-- The LED's descriptors, and what its file holds.
use Prim.Native.String.{String, ◌++◌}
use text.Mathlib.Text.{◌==◌ as str_eq}
use mse_ma_csel.Common.{
  Bool, true, false, not, ◌≡◌, ◌⊎◌, List, [], some, ◌∷◌, if◌then◌else◌, inl, inr, refl, Bool-cases,
  arith,
}
use mse_ma_csel.Common.Int.{ℤ, pos, negsuc, is_neg}
use mse_ma_csel.Daemon.Posix.{Posix, OpensOrFails, open_fds, same_fd_refl, Call, pwrite, mutex_lock}
use mse_ma_csel.Daemon.Led.{
  LedType, led_status, led_power, other, LedState, gpio_base, gpio_unexport, gpio_export, put,
  init_pin, led_init, led_toggle, led_deinit,
}

pub put-fds :
    (os : Posix) (path text : String) (s : LedState) (gs : List ℤ)
    → open_fds s.calls ≡ some gs
    → open_fds (put os path text s).1.calls ≡ some gs
unfolding put
put-fds os path text s gs h = elim (Bool-cases (is_neg (os.open_file path s.calls))) [
  | inl none_open ↦ ground arith
  | inr opened ↦ ground (arith, same_fd_refl (os.open_file path s.calls))
]

init_pin-fds :
    (os : Posix) (pin : String) (s : LedState) (gs : List ℤ)
    → OpensOrFails os
    → open_fds s.calls ≡ some gs
    → let (ret, s') = init_pin os pin s in
      ((ret ≡ pos 0) × (open_fds s'.calls ≡ some (s'.gpio ∷ gs)) × (is_neg s'.gpio ≡ false))
      ⊎ ((ret ≡ negsuc 0) × (open_fds s'.calls ≡ some gs))
unfolding init_pin
init_pin-fds os pin s gs opens h =
    let s1 = (put os gpio_unexport pin s).1 in
    let s2 = (put os gpio_export pin s1).1 in
    let s3 = (put os (gpio_base ++ pin ++ "/direction") "out" s2).1 in
    ground (
      arith,
      put-fds os gpio_unexport pin s gs h,
      put-fds os gpio_export pin s1 gs,
      put-fds os (gpio_base ++ pin ++ "/direction") "out" s2 gs,
      opens (gpio_base ++ pin ++ "/value") s3.calls,
      same_fd_refl (os.open_file (gpio_base ++ pin ++ "/value") s3.calls),
    )

-- Where `open` returns a descriptor or -1, `LED_init` either returns 0 and keeps one descriptor
-- open, the LED's, or returns -1 and keeps none; this for both LEDs, an invalid type and a NULL
-- pointer.
pub led_init-fds :
    (os : Posix) (led : Bool) (type : LedType) (s : LedState) (gs : List ℤ)
    → OpensOrFails os
    → open_fds s.calls ≡ some gs
    → let (ret, s') = led_init os led type s in
      ((ret ≡ pos 0) × (open_fds s'.calls ≡ some (s'.gpio ∷ gs)) × (is_neg s'.gpio ≡ false))
      ⊎ ((ret ≡ negsuc 0) × (open_fds s'.calls ≡ some gs))
unfolding led_init
led_init-fds os false type s gs opens h = inr (refl, h)
led_init-fds os true led_status s gs opens h = init_pin-fds os "10" s gs opens h
led_init-fds os true led_power s gs opens h = init_pin-fds os "362" s gs opens h
led_init-fds os true other s gs opens h = inr (refl, h)

-- `LED_deinit` closes that descriptor.
pub led_deinit-fds :
    (s : LedState) (gs : List ℤ)
    → open_fds s.calls ≡ some (s.gpio ∷ gs)
    → is_neg s.gpio ≡ false
    → open_fds (led_deinit true s).1.calls ≡ some gs
unfolding led_deinit
led_deinit-fds s gs h valid = ground (arith, same_fd_refl s.gpio)

-- Whether the LED is lit: the last text that was written to its file is "1".
abbrev pub is_lit : List Call → Bool
is_lit [] = false
is_lit (pwrite fd text ∷ cs) = str_eq text "1"
is_lit (_ ∷ cs) = is_lit cs

-- Where the file reads back as it was last written, `LED_toggle` turns the LED on if it is off, and
-- off if it is on.
pub led_toggle_flips :
    (os : Posix) (s : LedState)
    → ((cs : List Call) → os.pread s.gpio cs ≡ (if is_lit cs then b'1' else b'0'))
    → is_lit (led_toggle os true s).1.calls ≡ not (is_lit s.calls)
unfolding led_toggle
led_toggle_flips os s shows = ground (arith, shows (mutex_lock ∷ s.calls))
