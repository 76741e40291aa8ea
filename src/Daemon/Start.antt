-- ===== src/Daemon/Start.antt =====
-- src/06-mini-project/daemon/main.c: how the daemon starts, up to the loop that sleeps for ever.
-- What it prints is left out, and what stands after that loop is never reached.
pub mod Ending
use mse_ma_csel.Common.{
  ℕ, Bool, true, Option, none, some, List, ◌++◌, Proc, if◌then◌else◌, ◌>>=◌, ◌>>◌, pure, gets,
  modify,
}
use mse_ma_csel.Common.Int.{ℤ, pos, is_zero, is_neg}
use mse_ma_csel.Common.Text.{Bytes, Format}
use mse_ma_csel.Daemon.State.{Files, DaemonProc}
use mse_ma_csel.Daemon.Posix.{Posix, Call}
use mse_ma_csel.Daemon.Main.{BtnType, btn_increase, btn_decrease, btn_mode, ipc_cbs, btn_callback}
use mse_ma_csel.Daemon.Ipc.{IpcCallbacks}
use mse_ma_csel.Daemon.Ipc.Server.{Answers, Server, start_ipc_server}
use mse_ma_csel.Daemon.Led.{LedState, LedProc, led_power, led_init}
use mse_ma_csel.Daemon.Button.{Btn, Buttons, btn_init, btn_set_callback}
use mse_ma_csel.Daemon.Ssd1306.{Message, init}
use mse_ma_csel.Daemon.Oled.{OledCallbacks, oled_cbs}

-- The process: the three buttons and the LED of `main`, and the variables of the modules. `F` is a
-- temperature.
pub record Process (W F : Type 0) : Type 0 where
  pub buttons : BtnType → Btn (DaemonProc W (Unit {0}))
  pub btn_list : List ℕ
  pub btn_tail : ℕ
  pub epoll_fd : ℤ
  pub exited : Bool
  pub calls : List Call
  pub gpio : ℤ  -- `led_power.gpio`
  pub server : Server (IpcCallbacks W)
  pub oled_cbs : Option (OledCallbacks W F)
  pub screen : List Message
  pub oled_thread : Bool
  pub led : Bool  -- `led != NULL` of app.c
  pub anim_thread : Bool

-- `main` returns, the process was ended by `exit`, or `main` sleeps and the threads run.
pub data Outcome : Type 0 where
  returns : ℤ → Outcome
  exits runs : Outcome

-- The place of a button in `main`, for its address.
abbrev pub address : BtnType → ℕ
address btn_increase = 0
address btn_decrease = 1
address btn_mode = 2

module _ {W : Type 0} where
  abbrev pub place :
      BtnType
      → Btn (DaemonProc W (Unit {0}))
      → (BtnType → Btn (DaemonProc W (Unit {0})))
      → BtnType
      → Btn (DaemonProc W (Unit {0}))
  place btn_increase b bs btn_increase = b
  place btn_decrease b bs btn_decrease = b
  place btn_mode b bs btn_mode = b
  place _ b bs t = bs t

module _ {W F : Type 0} where
  abbrev pub the_buttons : BtnType → Process W F → Buttons (DaemonProc W (Unit {0}))
  the_buttons type s = record {
    btn = s.buttons type;
    btn_list = s.btn_list;
    btn_tail = s.btn_tail;
    epoll_fd = s.epoll_fd;
    exited = s.exited;
    calls = s.calls;
  }

  -- A procedure of button.c on one of the buttons.
  abbrev pub on_button :
      {A : Type 0} → BtnType → Proc (Buttons (DaemonProc W (Unit {0}))) A → Proc (Process W F) A
  on_button type p s =
      let (a, t) = p (the_buttons type s) in
      (
        a,
        record s {
          buttons = place type t.btn s.buttons;
          btn_list = t.btn_list;
          btn_tail = t.btn_tail;
          epoll_fd = t.epoll_fd;
          exited = t.exited;
          calls = t.calls;
        },
      )

  abbrev pub on_led : {A : Type 0} → LedProc A → Proc (Process W F) A
  on_led p s =
      let (a, t) = p (record { gpio = s.gpio; calls = s.calls }) in
      (a, record s { gpio = t.gpio; calls = t.calls })

  abbrev pub on_server : {A : Type 0} → Proc (Server (IpcCallbacks W)) A → Proc (Process W F) A
  on_server p s = let (a, t) = p s.server in (a, record s { server = t })

  -- Past a call of `BTN_init`, which may have ended the process.
  abbrev pub check : Bool → ℤ → Proc (Process W F) Outcome → Proc (Process W F) Outcome
  check exited ret rest =
      if exited then pure exits else (if is_zero ret then rest else pure (returns (pos 1)))

  -- `if (BTN_init(&btn, type) != 0) return 1;` and what follows.
  unfoldable pub init_button :
      Posix → BtnType → Proc (Process W F) Outcome → Proc (Process W F) Outcome
  init_button os type rest = do
    ret ← on_button type (btn_init os (some (address type)) (some type))
    exited ← gets (λ s. s.exited)
    check exited ret rest

  -- `if (LED_init(&led_power, LED_POWER) != 0) return 1;` and what follows.
  unfoldable pub init_led : Posix → Proc (Process W F) Outcome → Proc (Process W F) Outcome
  init_led os rest = do
    ret ← on_led (led_init os true led_power)
    if is_zero ret then rest else pure (returns (pos 1))

  -- src/06-mini-project/daemon/oled/oled.c, with the results of `open` and `ioctl`: a display that
  -- is missing goes unnoticed.
  unfoldable pub init_oled : ℤ → ℤ → Option (OledCallbacks W F) → Proc (Process W F) (Unit {0})
  init_oled fd slave none = do
    modify (λ s. record s { screen = s.screen ++ (init fd slave).1 })
    modify (λ s. record s { oled_thread = true })
  init_oled fd slave (some cbs) = do
    modify (λ s. record s { oled_cbs = some cbs })
    modify (λ s. record s { screen = s.screen ++ (init fd slave).1 })
    modify (λ s. record s { oled_thread = true })

module _ {W F : Type 0} (files : Files W) (text : Format) where
  -- The callbacks of the buttons.
  unfoldable pub connect : Proc (Process W F) (Unit {0})
  connect = do
    on_button btn_increase (btn_set_callback (some (btn_callback files text btn_increase)))
    on_button btn_decrease (btn_set_callback (some (btn_callback files text btn_decrease)))
    on_button btn_mode (btn_set_callback (some (btn_callback files text btn_mode)))

  module _ (zero_f : F) (scan_f : Bytes → Option F) (ipc : Answers) (fd slave : ℤ) where
    -- From the callbacks on.
    unfoldable pub serve : Proc (Process W F) Outcome
    serve = do
      connect
      ret ← on_server (start_ipc_server ipc (some (ipc_cbs files text)))
      if is_neg ret then pure (returns (pos 1)) else (do
        init_oled fd slave (some (oled_cbs files text zero_f scan_f))
        modify (λ s. record s { led = true })
        modify (λ s. record s { anim_thread = true })
        pure runs)

    unfoldable pub main : Posix → Proc (Process W F) Outcome
    main os =
        init_button os btn_increase
          (init_button os btn_decrease (init_button os btn_mode (init_led os serve)))
