-- ===== src/Daemon/Start/Ending.antt =====
-- How the start of the daemon ends.
use mse_ma_csel.Common.{ℕ, ◌≡◌, Bool, true, false, Option, none, some, List, [], ◌∷◌, length, Proc}
use mse_ma_csel.Common.Int.{ℤ, pos}
use mse_ma_csel.Common.Text.{Bytes, Format}
use mse_ma_csel.Daemon.State.{Files}
use mse_ma_csel.Daemon.Posix.{Posix, open_fds}
use mse_ma_csel.Daemon.Main.{BtnType, ipc_cbs, btn_callback}
use mse_ma_csel.Daemon.Ipc.Life.{IsStopped, IsServing}
use mse_ma_csel.Daemon.Oled.{oled_cbs}
use mse_ma_csel.Daemon.Start.{Process, Outcome, returns, exits, runs}

module _ {W F : Type 0} where
  -- Before the server starts: the descriptors that are open, and the table of buttons.
  pub record IsBooting (gs : List ℤ) (ls : List ℕ) (s : Process W F) : Type 0 where
    pub alive : s.exited ≡ false
    pub opened : open_fds s.calls ≡ some gs
    pub listed : s.btn_list ≡ ls
    pub stopped : IsStopped s.server
    pub unseen : s.oled_cbs ≡ none
    pub still : s.anim_thread ≡ false
    pub dark : s.oled_thread ≡ false

module _ {W F : Type 0} (files : Files W) (text : Format) (zero_f : F)
    (scan_f : Bytes → Option F) where
  -- The daemon works: every button has its place and its callback, four descriptors are open, the
  -- server serves with the application's operations, and the display and the animation have their
  -- threads.
  pub record IsStarted (s : Process W F) : Type 0 where
    pub table : s.btn_list ≡ 0 ∷ 1 ∷ 2 ∷ []
    pub linked : (type : BtnType) → (s.buttons type).callback ≡ some (btn_callback files text type)
    pub descriptors : (gs : List ℤ) × (open_fds s.calls ≡ some gs) × (length gs ≡ 4)
    pub serving : IsServing s.server
    pub answering : s.server.current_cbs ≡ some (ipc_cbs files text)
    pub showing : s.oled_cbs ≡ some (oled_cbs files text zero_f scan_f)
    pub threads : (s.oled_thread ≡ true) × (s.anim_thread ≡ true) × (s.led ≡ true)

  -- The display has no callbacks, and neither display nor animation has a thread.
  abbrev pub IsIdle : Process W F → Type 0
  IsIdle s = (s.oled_cbs ≡ none) × (s.oled_thread ≡ false) × (s.anim_thread ≡ false)

  -- How the start ends: at work; or with 1, and no thread of display or animation; or by `exit`.
  abbrev pub Ended : Outcome → Process W F → Type 0
  Ended runs s = IsStarted s
  Ended (returns c) s = (c ≡ pos 1) × IsStopped s.server × IsIdle s
  Ended exits s = s.exited ≡ true

  -- A procedure ends well from where it is run.
  record Succeeds (p : Proc (Process W F) Outcome) (s : Process W F) : Type 0 where
    ended : Ended (p s).0 (p s).1
