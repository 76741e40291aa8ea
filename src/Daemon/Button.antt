-- ===== src/Daemon/Button.antt =====
-- src/06-mini-project/daemon/gpio/button.c: the buttons, the table of buttons, and the thread that
-- calls their callbacks. `C` is the type of a callback.
pub mod Registry
use Prim.Native.String.{String, ◌++◌}
use mse_ma_csel.Common.{
  ℕ, Bool, true, false, not, ◌&&◌, ◌+◌, Option, none, some, List, [], ◌∷◌, Proc, leb, ◌==◌, length,
  ◌++◌ as append, if◌then◌else◌, ◌>>=◌, ◌>>◌, pure, gets, modify, when, skip,
}
use mse_ma_csel.Common.Int.{ℤ, pos, negsuc, is_zero, is_neg}
use mse_ma_csel.Daemon.Posix.{
  Call, Posix, close, write, mutex_destroy, mutex_lock, mutex_unlock, lock_list, unlock_list,
  epoll_add,
}
use mse_ma_csel.Daemon.Led.{gpio_export, gpio_unexport, gpio_base, is_minus_one}
use mse_ma_csel.Daemon.Main.{BtnType, btn_increase, btn_decrease, btn_mode}
use mse_ma_csel.Daemon.State.{DaemonProc, btn_mutex, lock, unlock}

-- `MAX_BTN`
abbrev pub max_btn : ℕ
max_btn = 10

-- `GPIO_BTN_INCREASE`, `GPIO_BTN_DECREASE` and `GPIO_BTN_MODE`.
abbrev pub pin_of : BtnType → String
pin_of btn_increase = "3"
pin_of btn_decrease = "0"
pin_of btn_mode = "2"

-- `BTN`; `none` is no callback.
pub record Btn (C : Type 0) : Type 0 where
  pub fd : ℤ
  pub pin : String
  pub callback : Option C

-- The module's variables, one button that is being set up, and the calls made. A button in the
-- table is known by its address; `exited` tells that the process was ended by `exit`.
pub record Buttons (C : Type 0) : Type 0 where
  pub btn : Btn C
  pub btn_list : List ℕ
  pub btn_tail : ℕ
  pub epoll_fd : ℤ
  pub exited : Bool
  pub calls : List Call

module _ {C : Type 0} where
  abbrev pub emit : Call → Proc (Buttons C) (Unit {0})
  emit c s = (tt, record s { calls = c ∷ s.calls })

  abbrev pub open_path : Posix → String → Proc (Buttons C) ℤ
  open_path os path s =
      let fd = os.open_file path s.calls in
      (fd, record s { calls = Call.open_file path fd ∷ s.calls })

  -- `f = open(path); write(f, text); close(f);` with a failure of `open` reported.
  unfoldable pub put : Posix → String → String → Proc (Buttons C) Bool
  put os path text = do
    f ← open_path os path
    if is_minus_one f then pure false else (do emit (write f text); emit (close f); pure true)

  -- `ev[tail]` and `epoll_ctl`; a failure is only printed.
  abbrev btn_add_epoll_event : Proc (Buttons C) (Unit {0})
  btn_add_epoll_event = do f ← gets (λ s. s.btn.fd); emit (epoll_add f)

  module _ (os : Posix) where
    -- True if the process goes on.
    unfoldable pub epoll_init : Proc (Buttons C) Bool
    epoll_init = do
      epfd ← gets (λ s. os.epoll_create s.calls)
      emit (Call.epoll_create epfd)
      if is_neg epfd then (do modify (λ s. record s { exited = true }); pure false) else (do
        modify (λ s. record s { epoll_fd = epfd })
        ret ← gets (λ s. os.pthread_create s.calls)
        emit (Call.pthread_create ret)
        if is_zero ret
            then pure true
            else (do modify (λ s. record s { exited = true }); pure false))

    -- `BTN_init` from the lock of the table on, for the button at `address`.
    unfoldable pub register : ℕ → Proc (Buttons C) ℤ
    register address = do
      emit lock_list
      tail ← gets (λ s. s.btn_tail)
      modify (λ s. record s { btn_tail = s.btn_tail + 1 })
      if leb max_btn tail
          then (do emit unlock_list; f ← gets (λ s. s.btn.fd); emit (close f); pure (negsuc 0))
          else (do
            modify (λ s. record s { btn_list = append s.btn_list (address ∷ []) })
            go_on ← if tail == 0 then epoll_init else pure true
            if go_on
                then (do btn_add_epoll_event; emit unlock_list; pure (pos 0))
                else pure (negsuc 0))

    -- `BTN_init` from the opening of `value` on.
    unfoldable pub open_value : ℕ → String → Proc (Buttons C) ℤ
    open_value address pin = do
      f ← open_path os (gpio_base ++ pin ++ "/value")
      if is_minus_one f then pure (negsuc 0) else (do
        modify (λ s. record s { btn = record (s.btn) { fd = f } })
        value ← gets (λ s. os.pread f s.calls)
        emit (Call.pread f value)
        register address)

    -- `pthread_mutex_init`, with no look at the result.
    abbrev pub init_mutex : Proc (Buttons C) (Unit {0})
    init_mutex = do ret ← gets (λ s. os.mutex_init s.calls); emit (Call.mutex_init ret)

    -- `BTN_init` for the text of the pin.
    unfoldable pub init_pin : ℕ → String → Proc (Buttons C) ℤ
    init_pin address pin = do
      init_mutex
      modify (λ s. record s { btn = record (s.btn) { pin = pin; callback = none } })
      _unexported ← put os gpio_unexport pin
      exported ← put os gpio_export pin
      if not exported then pure (negsuc 0) else (do
        directed ← put os (gpio_base ++ pin ++ "/direction") "in"
        if not directed then pure (negsuc 0) else (do
          edged ← put os (gpio_base ++ pin ++ "/edge") "both"
          if not edged then pure (negsuc 0) else open_value address pin))

    -- `address` is `none` for NULL, and `type` is `none` for a value that is no `BTN_type`.
    unfoldable pub btn_init : Option ℕ → Option BtnType → Proc (Buttons C) ℤ
    btn_init none type = pure (negsuc 0)
    btn_init (some address) none = do
      init_mutex
      modify (λ s. record s { btn = record (s.btn) { callback = none } })
      pure (negsuc 0)
    btn_init (some address) (some type) = init_pin address (pin_of type)

  unfoldable pub btn_deinit : Bool → Proc (Buttons C) (Unit {0})
  btn_deinit false = skip
  btn_deinit true = do
    emit mutex_lock
    f ← gets (λ s. s.btn.fd)
    when (not (is_minus_one f))
        (do emit (close f); modify (λ s. record s { btn = record (s.btn) { fd = negsuc 0 } }))
    emit mutex_unlock
    emit mutex_destroy

  unfoldable pub btn_set_callback : Option C → Proc (Buttons C) (Unit {0})
  btn_set_callback callback = do
    emit mutex_lock
    modify (λ s. record s { btn = record (s.btn) { callback = callback } })
    emit mutex_unlock

module _ {W : Type 0} where
  abbrev call : Option (DaemonProc W (Unit {0})) → DaemonProc W (Unit {0})
  call none = skip
  call (some callback) = callback

  -- One event of `epoll_thread`: the button that it carries (`none` for NULL), and the first byte
  -- that its file holds.
  unfoldable pub handle_event : Option (Btn (DaemonProc W (Unit {0}))) → ℕ → DaemonProc W (Unit {0})
  handle_event none value = skip
  handle_event (some btn) value = do
    lock btn_mutex
    if not (is_minus_one btn.fd) && value == b'1' then call btn.callback else skip
    unlock btn_mutex

  -- The events of one `epoll_wait`.
  unfoldable pub handle_events :
      List (Option (Btn (DaemonProc W (Unit {0}))) × ℕ) → DaemonProc W (Unit {0})
  handle_events [] = skip
  handle_events ((btn, value) ∷ es) = do handle_event btn value; handle_events es
