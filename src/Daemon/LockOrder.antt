-- ===== src/Daemon/LockOrder.antt =====
-- The order in which the daemon takes its mutexes. Its threads (the buttons', the messages', the
-- animation's and the display's) each keep it, so none waits for another in a circle.
pub mod Threads
pub mod Progress
pub mod Works
use mse_ma_csel.Common.{
  ℕ, ◌+◌, ◌-◌, ◌%◌, ◌^◌, refl, Bool, true, false, ◌≡◌, Option, none, some, List, [], ◌∷◌, ltb, ◌==◌,
  arith,
}
use mse_ma_csel.Common.Int.{ℤ}
use mse_ma_csel.Common.Words.{u32, i32}
use mse_ma_csel.Common.Text.{Bytes, Format}
use mse_ma_csel.Daemon.State.{
  Mutex, anim_lock, app_lock, sysfs_lock, cb_mutex, btn_mutex, led_mutex, LockEvent, mutex_lock,
  mutex_unlock, Files, Daemon,
}
use mse_ma_csel.Daemon.Files.{
  sysfs_get_temperature, sysfs_get_mode, sysfs_set_mode, sysfs_get_period, sysfs_set_period,
}
use mse_ma_csel.Daemon.App.{
  xor_one, set_period, increase_period, decrease_period, set_mode, mode_toggle, trigger_pulse,
  get_mode, get_period, animation_turn, btn_increase_period, btn_decrease_period,
}
use mse_ma_csel.Daemon.Main.{BtnType, btn_increase, btn_decrease, btn_mode, ipc_cbs, btn_callback}
use mse_ma_csel.Daemon.Oled.{Printer, oled_cbs, update_turn}
use mse_ma_csel.Daemon.Ipc.{IpcMsg, process_message}

abbrev pub rank : Mutex → ℕ
rank btn_mutex = 0
rank cb_mutex = 1
rank anim_lock = 2
rank app_lock = 3
rank sysfs_lock = 4
rank led_mutex = 5

abbrev pub take_lock : Mutex → List Mutex → Option (List Mutex)
take_lock m [] = some (m ∷ [])
take_lock m (n ∷ ns) = elim (ltb (rank n) (rank m)) [ true ↦ some (m ∷ n ∷ ns) | false ↦ none ]

abbrev pub give_back : Mutex → List Mutex → Option (List Mutex)
give_back m [] = none
give_back m (n ∷ ns) = elim (rank n == rank m) [ true ↦ some ns | false ↦ none ]

abbrev pub follow : LockEvent → Option (List Mutex) → Option (List Mutex)
follow e none = none
follow (mutex_lock m) (some ns) = take_lock m ns
follow (mutex_unlock m) (some ns) = give_back m ns

-- The mutexes that are held after the events, newest first; `none` if one was taken out of order or
-- given back without being the last one taken.
abbrev pub locked : List LockEvent → Option (List Mutex)
locked [] = some []
locked (e ∷ es) = follow e (locked es)

-- All locks held rank below `n`.
abbrev pub below : ℕ → List Mutex → Bool
below n [] = true
below n (m ∷ _) = ltb (rank m) n

module _ {W : Type 0} (files : Files W) (text : Format) (ns : List Mutex) (d : Daemon W)
    (held : locked d.locks ≡ some ns) where
  sysfs_set_period-order :
      (p : ℕ) → below 4 ns ≡ true → locked (sysfs_set_period files text p d).1.locks ≡ some ns
  unfolding sysfs_set_period
  sysfs_set_period-order p b = ground arith

  sysfs_get_period-order :
      below 4 ns ≡ true → locked (sysfs_get_period files text d).1.locks ≡ some ns
  unfolding sysfs_get_period
  sysfs_get_period-order b = ground arith

  sysfs_set_mode-order :
      (m : ℕ) → below 4 ns ≡ true → locked (sysfs_set_mode files text m d).1.locks ≡ some ns
  unfolding sysfs_set_mode
  sysfs_set_mode-order m b = ground arith

  sysfs_get_mode-order : below 4 ns ≡ true → locked (sysfs_get_mode files text d).1.locks ≡ some ns
  unfolding sysfs_get_mode
  sysfs_get_mode-order b = ground arith

  trigger_pulse-order : below 2 ns ≡ true → locked (trigger_pulse d).1.locks ≡ some ns
  unfolding trigger_pulse
  trigger_pulse-order b = ground arith

module _ {W : Type 0} (files : Files W) (text : Format) (ns : List Mutex) (d : Daemon W)
    (held : locked d.locks ≡ some ns) (b : below 3 ns ≡ true) where
  abbrev under_app : Daemon W
  under_app = record d { locks = mutex_lock app_lock ∷ d.locks }

  sysfs_get-order : locked (sysfs_get_period files text under_app).1.locks ≡ some (app_lock ∷ ns)
  sysfs_get-order = sysfs_get_period-order files text (app_lock ∷ ns) under_app (ground arith) refl

  increase_period-order : locked (increase_period files text d).1.locks ≡ some ns
  unfolding increase_period set_period
  increase_period-order =
      let (p, d') = sysfs_get_period files text under_app in
      ground (
        arith,
        sysfs_set_period-order files text (app_lock ∷ ns) d' sysfs_get-order ((p + 50) % 2 ^ 32)
            refl,
      )

  decrease_period-order : locked (decrease_period files text d).1.locks ≡ some ns
  unfolding decrease_period set_period
  decrease_period-order =
      let (p, d') = sysfs_get_period files text under_app in
      ground (
        arith,
        sysfs_get-order,
        sysfs_set_period-order files text (app_lock ∷ ns) d' sysfs_get-order (p - 50) refl,
      )

  mode_toggle-order : locked (mode_toggle files text d).1.locks ≡ some ns
  unfolding mode_toggle set_mode
  mode_toggle-order =
      let (m, d') = sysfs_get_mode files text under_app in
      let read = sysfs_get_mode-order files text (app_lock ∷ ns) under_app (ground arith) refl in
      ground (
        arith,
        sysfs_set_mode-order files text (app_lock ∷ ns) d' read (u32 (xor_one (i32 m))) refl,
      )

  set_period-order : (p : ℕ) → locked (set_period files text p d).1.locks ≡ some ns
  unfolding set_period
  set_period-order p = sysfs_set_period-order files text ns d held p (ground arith)

  set_mode-order : (m : ℤ) → locked (set_mode files text m d).1.locks ≡ some ns
  unfolding set_mode
  set_mode-order m = sysfs_set_mode-order files text ns d held (u32 m) (ground arith)

module _ {W : Type 0} (files : Files W) (text : Format) (d : Daemon W)
    (idle : locked d.locks ≡ some []) where
  abbrev under_cb : Daemon W
  under_cb = record d { locks = mutex_lock cb_mutex ∷ d.locks }

  -- When no mutex is held, a message of any command and value takes its mutexes in order and
  -- gives all of them back, with the callbacks of `main`, whatever the files hold.
  pub process_message-order :
      (msg : IpcMsg) → locked (process_message (ipc_cbs files text) msg d).1.locks ≡ some []
  unfolding process_message
  process_message-order msg =
      let cb : locked under_cb.locks ≡ some (cb_mutex ∷ []) = ground arith in
      ground (
        arith,
        set_mode-order files text (cb_mutex ∷ []) under_cb cb refl (i32 msg.value),
        set_period-order files text (cb_mutex ∷ []) under_cb cb refl msg.value,
        increase_period-order files text (cb_mutex ∷ []) under_cb cb refl,
        decrease_period-order files text (cb_mutex ∷ []) under_cb cb refl,
      )

  -- A turn of the animation's thread gives back all mutexes that it takes.
  pub animation_turn-order : locked (animation_turn d).1.locks ≡ some []
  unfolding animation_turn
  animation_turn-order = ground arith

  abbrev under_btn : Daemon W
  under_btn = record d { locks = mutex_lock btn_mutex ∷ d.locks }

  under_btn-order : locked under_btn.locks ≡ some (btn_mutex ∷ [])
  under_btn-order = ground arith

  trigger-order : locked (trigger_pulse under_btn).1.locks ≡ some (btn_mutex ∷ [])
  trigger-order = trigger_pulse-order files text (btn_mutex ∷ []) under_btn under_btn-order refl

  -- When just the button's own mutex is held, the callback of any button takes its mutexes in
  -- order and leaves just that one held.
  pub btn_callback-order :
      (button : BtnType)
      → locked (btn_callback files text button under_btn).1.locks ≡ some (btn_mutex ∷ [])
  unfolding btn_increase_period btn_decrease_period
  btn_callback-order btn_increase =
      increase_period-order files text (btn_mutex ∷ []) (trigger_pulse under_btn).1 trigger-order
        refl
  btn_callback-order btn_decrease =
      decrease_period-order files text (btn_mutex ∷ []) (trigger_pulse under_btn).1 trigger-order
        refl
  btn_callback-order btn_mode =
      mode_toggle-order files text (btn_mutex ∷ []) under_btn under_btn-order refl

module _ {W F : Type 0} (files : Files W) (text : Format) (zero_f : F) (scan_f : Bytes → Option F)
    (d : Daemon W) (idle : locked d.locks ≡ some []) where
  get_temperature-order :
      locked (sysfs_get_temperature files text zero_f scan_f d).1.locks ≡ some []
  unfolding sysfs_get_temperature
  get_temperature-order = ground arith

-- A turn of the display's thread gives back all mutexes that it takes.
pub update_turn-order :
    {W F : Type 0} (files : Files W) (text : Format) (printer : Printer F) (zero_f : F)
    (scan_f : Bytes → Option F) (d : Daemon W)
    → locked d.locks ≡ some []
    → locked (update_turn printer (some (oled_cbs files text zero_f scan_f)) d).1.locks ≡ some []
unfolding update_turn get_mode get_period
update_turn-order files text printer zero_f scan_f d idle =
    let d₁ = (sysfs_get_mode files text d).1 in
    let d₂ = (sysfs_get_temperature files text zero_f scan_f d₁).1 in
    sysfs_get_period-order files text [] d₂
      (get_temperature-order files text zero_f scan_f d₁
        (sysfs_get_mode-order files text [] d idle refl))
      refl
