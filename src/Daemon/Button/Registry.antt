-- ===== src/Daemon/Button/Registry.antt =====
-- The table of buttons and their descriptors.
use Prim.Native.String.{String, ◌++◌}
use mse_ma_csel.Common.{
  ℕ, true, false, ◌≤◌, ◌≡◌, ◌⊎◌, List, [], ◌∷◌, Option, some, none, leb, length, length-append,
  if◌then◌else◌, ◌++◌ as append, arith,
}
use mse_ma_csel.Common.Int.{ℤ, pos, negsuc, is_neg}
use mse_ma_csel.Daemon.Posix.{Posix, open_fds, same_fd_refl, Call}
use mse_ma_csel.Daemon.Led.{gpio_export, gpio_unexport, gpio_base}
use mse_ma_csel.Daemon.Main.{BtnType}
use mse_ma_csel.Daemon.Button.{
  max_btn, pin_of, Buttons, put, epoll_init, register, open_value, init_pin, btn_init, btn_deinit,
}

module _ {C : Type 0} where
  -- The table is never over-full: it holds as many buttons as were counted, up to ten.
  pub record IsTable (s : Buttons C) : Type 0 where
    pub bounded : length s.btn_list ≤ max_btn
    pub counted : length s.btn_list ≡ (if leb max_btn s.btn_tail then max_btn else s.btn_tail)

  -- How a call of `BTN_init` ends, from descriptors `gs`: it succeeds and one more descriptor, the
  -- button's, is open, and the table is one longer; or it fails and none more is open; or the
  -- process has ended.
  abbrev pub Ends : List ℤ → List ℕ → ℕ → ℤ → Buttons C → Type 0
  Ends gs before address ret s =
      ((ret ≡ pos 0)
        × (open_fds s.calls ≡ some (s.btn.fd ∷ gs))
        × (s.btn_list ≡ append before (address ∷ [])))
      ⊎ ((ret ≡ negsuc 0) × (open_fds s.calls ≡ some gs) × (s.btn_list ≡ before))
      ⊎ (s.exited ≡ true)

  register-IsTable :
      (os : Posix) (address : ℕ) (s : Buttons C) → IsTable s → IsTable (register os address s).1
  unfolding register epoll_init
  register-IsTable os address s h = ground (arith, length-append s.btn_list (address ∷ []))

  open_value-IsTable :
      (os : Posix) (address : ℕ) (pin : String) (s : Buttons C)
      → IsTable s
      → IsTable (open_value os address pin s).1
  unfolding open_value
  open_value-IsTable os address pin s h =
      let path = gpio_base ++ pin ++ "/value" in
      let fd = os.open_file path s.calls in
      let opened = Call.open_file path fd ∷ s.calls in
      let ready : Buttons C = record s {
        btn = record (s.btn) { fd = fd };
        calls = Call.pread fd (os.pread fd opened) ∷ opened;
      } in
      ground (arith, register-IsTable os address ready)

  put-IsTable :
      (os : Posix) (path text : String) (s : Buttons C) → IsTable s → IsTable (put os path text s).1
  unfolding put
  put-IsTable os path text s h = ground arith

  -- `BTN_init` keeps that the table has at most its ten places filled, and as many as its counter
  -- says until the counter passes ten.
  pub btn_init-IsTable :
      (os : Posix) (address : ℕ) (type : Option BtnType) (s : Buttons C)
      → IsTable s
      → IsTable (btn_init os (some address) type s).1
  unfolding btn_init init_pin
  btn_init-IsTable os address none s h = ground arith
  btn_init-IsTable os address (some type) s h =
      let pin = pin_of type in
      let s0 : Buttons C = record s {
        btn = record (s.btn) { pin = pin; callback = none };
        calls = Call.mutex_init (os.mutex_init s.calls) ∷ s.calls;
      } in
      let s1 = (put os gpio_unexport pin s0).1 in
      let s2 = (put os gpio_export pin s1).1 in
      let s3 = (put os (gpio_base ++ pin ++ "/direction") "in" s2).1 in
      let s4 = (put os (gpio_base ++ pin ++ "/edge") "both" s3).1 in
      let t0 : IsTable s0 = ground arith in
      ground (
        arith,
        t0,
        put-IsTable os gpio_unexport pin s0,
        put-IsTable os gpio_export pin s1,
        put-IsTable os (gpio_base ++ pin ++ "/direction") "in" s2,
        put-IsTable os (gpio_base ++ pin ++ "/edge") "both" s3,
        open_value-IsTable os address pin s4,
      )

  -- When the table is full and just the button's descriptor is open, the registration fails and
  -- closes it, but the button keeps it: `BTN_deinit` closes it a second time.
  pub full_table_double_close :
      (os : Posix) (address : ℕ) (s : Buttons C)
      → max_btn ≤ s.btn_tail
      → open_fds s.calls ≡ some (s.btn.fd ∷ [])
      → is_neg s.btn.fd ≡ false
      → let (ret, s') = register os address s in
        (ret ≡ negsuc 0)
        × (open_fds s'.calls ≡ some [])
        × (open_fds (btn_deinit true s').1.calls ≡ none)
  unfolding register btn_deinit
  full_table_double_close os address s full h valid = ground (arith, same_fd_refl s.btn.fd)
