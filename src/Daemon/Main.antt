-- ===== src/Daemon/Main.antt =====
-- src/06-mini-project/daemon/main.c: what `main` registers with the server and with the buttons.
use mse_ma_csel.Common.{some}
use mse_ma_csel.Common.Text.{Format}
use mse_ma_csel.Daemon.State.{Files, DaemonProc}
use mse_ma_csel.Daemon.App.{
  set_period, increase_period, decrease_period, set_mode, mode_toggle, btn_increase_period,
  btn_decrease_period,
}
use mse_ma_csel.Daemon.Ipc.{IpcCallbacks}

-- `BTN_type`
pub data BtnType : Type 0 where
  btn_increase btn_decrease btn_mode : BtnType

module _ {W : Type 0} (files : Files W) (text : Format) where
  abbrev pub ipc_cbs : IpcCallbacks W
  ipc_cbs = record {
    on_set_mode = some (set_mode files text);
    on_set_period = some (set_period files text);
    on_inc_period = some (increase_period files text);
    on_dec_period = some (decrease_period files text);
  }

  -- The callback that `BTN_set_callback` gets for each button.
  abbrev pub btn_callback : BtnType → DaemonProc W (Unit {0})
  btn_callback btn_increase = btn_increase_period files text
  btn_callback btn_decrease = btn_decrease_period files text
  btn_callback btn_mode = mode_toggle files text
