-- ===== src/Tests/SystemTests.antt =====
-- The command line and the daemon over a loaded module, at concrete inputs.
use Prim.Native.String.{String}
use text.Mathlib.Text.{◌==◌ as str_eq}
use mse_ma_csel.Common.{
  ◌+◌, ◌*◌, ◌-◌, ◌^◌, ◌≡◌, ◌≢◌, refl, List, some, [], ◌∷◌, if◌then◌else◌, arith,
}
use mse_ma_csel.Common.Int.{ℤ, pos, negsuc}
use mse_ma_csel.Cli.{Socket, main}
use mse_ma_csel.Daemon.Main.{ipc_cbs}
use mse_ma_csel.Daemon.Ipc.{IpcMsg, process_message}
use mse_ma_csel.System.{files}
use mse_ma_csel.System.Commands.{cli_negative_period}
use mse_ma_csel.Kernel.Spec.{control}
use mse_ma_csel.System.Spec.{slower, with_period}
use mse_ma_csel.System.Sharing.{increase, free, Shared, Act, enter, get, put, act, acts}
use mse_ma_csel.System.Sharing.Serial.{Serial}
use mse_ma_csel.System.Sharing.Counted.{finished, increases_counted}
use mse_ma_csel.System.Sharing.LostUpdate.{set_period_lost}
use mse_ma_csel.Tests.Data.{granting, plain, plain-IsFaithful, daemon, daemon-IsUp}

-- The `atoi` of the texts that the tests use.
abbrev atoi : String → ℤ
atoi text = if str_eq text "250" then pos 250 else if str_eq text "-1" then negsuc 0 else pos 1

abbrev socket : Socket
socket = record { fd = pos 3; sent = λ msg. pos 8 }

cli_negative_period_example :
    (msg : IpcMsg) × ((main atoi socket ("cli" ∷ "period" ∷ "-1" ∷ [])).1 ≡ some msg)
    × let k = (process_message (ipc_cbs (files granting plain) plain) msg daemon).1.world in
      (k.current_period ≡ 2 ^ 32 - 1) × (k.blink_period_ms ≡ negsuc 0)
cli_negative_period_example =
    cli_negative_period atoi socket refl granting plain plain-IsFaithful daemon daemon-IsUp "cli"
      "-1" 0 refl (omega arith) refl

-- An increase, during which a message sets the mode, then a round of the regulator.
abbrev busy_moment : List Act
busy_moment =
    enter increase
    ∷ Act.period 90
    ∷ get increase
    ∷ Act.mode (pos 1)
    ∷ Act.mode (pos 0)
    ∷ put increase
    ∷ Act.round
    ∷ []

abbrev at_rest : Shared
at_rest = record { daemon = daemon; inside = free }

set_period_lost_example :
    (t : Shared) × (acts granting plain
        (enter increase ∷ get increase ∷ Act.period 90 ∷ put increase ∷ [])
        (some at_rest)
      ≡ some t)
    × (t.daemon.world.current_period ≡ 550)
    × ((slower (with_period 90 (control daemon.world))).period ≢ t.daemon.world.current_period)
    × ((with_period 90 (slower (control daemon.world))).period ≢ t.daemon.world.current_period)
set_period_lost_example =
    set_period_lost granting plain plain-IsFaithful daemon 90 daemon-IsUp refl (omega arith)
      (omega arith) (omega arith) (omega arith) (omega arith)

-- One increase to its end, and another one up to its read.
abbrev two_presses : List Act
two_presses = enter increase ∷ get increase ∷ put increase ∷ enter increase ∷ get increase ∷ []

after_presses : (t : Shared) × (acts granting plain two_presses (some at_rest) ≡ some t)
unfolding act
after_presses = (_, refl)

increases_counted_example :
    after_presses.0.daemon.world.current_period ≡ 500 + 50 * finished two_presses
increases_counted_example =
    increases_counted granting plain plain-IsFaithful two_presses daemon after_presses.0 daemon-IsUp
      refl (omega arith) refl after_presses.1
