-- ===== src/Solutions/SillyLed.antt =====
-- src/solutions/04_system/silly/silly_led_control.c: a LED that a loop flashes by the clock. Times
-- are in nanoseconds, of a clock that does not go back, and the period that is asked for is not
-- negative.
use Prim.Native.String.{String, ◌++◌}
use mse_ma_csel.Common.Int.{ℤ}
use mse_ma_csel.Daemon.Posix.{Posix, open_fds}
use mse_ma_csel.Daemon.Led.{LedState, LedProc, gpio_export, gpio_unexport, open_path, put}
use mse_ma_csel.LedController.Gpio.{led_open, with_fd, open-fds}
use mse_ma_csel.Common.{
  ℕ, ◌+◌, ◌-◌, ◌*◌, ◌/◌, ◌%◌, ◌≤◌, ◌≡◌, refl, Bool, true, ◌&&◌, ◌||◌, not, ◌>>◌, Bool-cases, inl,
  inr, Option, none, some, List, [], ◌∷◌, leb, ◌==◌, if◌then◌else◌, arith,
}

-- `duty`, in percent, and the default of `period`, in milliseconds.
abbrev pub duty : ℕ
duty = 2

abbrev pub default_period : ℕ
default_period = 1000

-- `period`, from the number in the first argument, if there is one.
abbrev pub period : Option ℕ → ℕ
period none = default_period * 1000000
period (some ms) = ms * 1000000

abbrev pub p1 : ℕ → ℕ
p1 period = period / 100 * duty

abbrev pub p2 : ℕ → ℕ
p2 period = period - p1 period

-- `GPIO_LED` and `LED`
abbrev pub gpio_led : String
gpio_led = "/sys/class/gpio/gpio10"

abbrev pub led_pin : String
led_pin = "10"

unfoldable pub open_led : Posix → LedProc ℤ
open_led os = do
  put os gpio_unexport led_pin
  put os gpio_export led_pin
  put os (gpio_led ++ "/direction") "out"
  open_path os (gpio_led ++ "/value")

-- Whatever calls fail, `open_led` leaves open just the descriptor that it returns, if it is one.
open_led-fds :
    (os : Posix) (s : LedState) (gs : List ℤ)
    → open_fds s.calls ≡ some gs
    → let (led, s') = open_led os s in open_fds s'.calls ≡ some (with_fd led gs)
unfolding open_led led_open
open_led-fds os s gs h = (open-fds os gpio_led led_pin s gs h).0

-- What was written to the LED, and when.
pub record Change : Type 0 where
  pub at : ℕ
  pub on : Bool

pub record State : Type 0 where
  pub t1 : ℕ
  pub k : ℕ
  pub written : List Change  -- newest first

-- The first write is made before the first reading of the clock.
abbrev pub start : ℕ → State
start t = record { t1 = t; k = 0; written = record { at = t; on = true } ∷ [] }

-- One turn of the loop, in which the clock shows `t2`.
unfoldable pub turn : ℕ → ℕ → State → State
turn period t2 s =
    let delta = t2 - s.t1 in
    let toggle = s.k == 0 && leb (p1 period) delta || s.k == 1 && leb (p2 period) delta in
    let k = (s.k + 1) % 2 in
    if toggle
    then record { t1 = t2; k = k; written = record { at = t2; on = k == 0 } ∷ s.written }
    else s

abbrev pub turns : ℕ → List ℕ → State → State
turns period [] s = s
turns period (t ∷ ts) s = turns period ts (turn period t s)

-- The readings never go back, from `t` on.
abbrev pub Rises : ℕ → List ℕ → Type 0
Rises t [] = Unit {0}
Rises t (u ∷ us) = (t ≤ u) × Rises u us

-- Each change turns the LED over, and comes no sooner after the one before than the LED is to be
-- on, or off.
abbrev pub Flashes : ℕ → List Change → Type 0
Flashes period [] = Unit {0}
Flashes period (c ∷ []) = c.on ≡ true
Flashes period (c ∷ d ∷ cs) =
    (c.on ≡ not d.on)
    × (d.at + (if d.on then p1 period else p2 period) ≤ c.at)
    × Flashes period (d ∷ cs)

record IsFlashing (period t : ℕ) (s : State) : Type 0 where
  last : Change
  before : List Change
  written : s.written ≡ last ∷ before
  at : last.at ≡ s.t1
  level : last.on ≡ (s.k == 0)
  bit : s.k % 2 ≡ s.k
  past : s.t1 ≤ t
  flashes : Flashes period s.written

turn-IsFlashing :
    (period t t2 : ℕ) (s : State)
    → t ≤ t2
    → IsFlashing period t s
    → IsFlashing period t2 (turn period t2 s)
unfolding turn
turn-IsFlashing period t t2 s le h =
    let delta = t2 - s.t1 in
    let toggle = s.k == 0 && leb (p1 period) delta || s.k == 1 && leb (p2 period) delta in
    let change : Change = record { at = t2; on = (s.k + 1) % 2 == 0 } in
    let k = s.k in
    elim (Bool-cases toggle) [
      | inl over ↦
          let turned : (k + 1) % 2 == 0 ≡ not h.last.on = ground (arith, h.level, h.bit, over) in
          let spaced : h.last.at + (if h.last.on then p1 period else p2 period) ≤ t2 =
            ground (arith, h.level, h.at, h.past, over) in
          rw over (record {
            last = change;
            before = s.written;
            written = refl;
            at = refl;
            level = refl;
            bit = omega arith;
            past = omega arith;
            flashes = rw h.written (turned, spaced, rw h.written at h.flashes);
          })
      | inr still ↦ rw still (record {
        last = h.last;
        before = h.before;
        written = h.written;
        at = h.at;
        level = h.level;
        bit = h.bit;
        past = omega (arith, h.past, le);
        flashes = h.flashes;
      })
    ]

start-IsFlashing : (period t : ℕ) → IsFlashing period t (start t)
start-IsFlashing period t = record {
  last = record { at = t; on = true };
  before = [];
  written = refl;
  at = refl;
  level = refl;
  bit = omega arith;
  past = omega arith;
  flashes = refl;
}

turns-IsFlashing :
    (period t : ℕ) (ts : List ℕ) (s : State)
    → Rises t ts
    → IsFlashing period t s
    → Flashes period (turns period ts s).written
turns-IsFlashing period t [] s up h = h.flashes
turns-IsFlashing period t (u ∷ us) s up h =
    turns-IsFlashing period u us (turn period u s) up.1 (turn-IsFlashing period t u s up.0 h)

-- Whatever the period is, and however often the clock is read, as long as it does not go back: the
-- LED is turned over each time it is written after the first, and is never on for less than 2 % of
-- the period, cut to whole hundredths, nor off for less than the rest.
pub turns-Flashes :
    (ms : Option ℕ) (t : ℕ) (ts : List ℕ)
    → Rises t ts
    → Flashes (period ms) (turns (period ms) ts (start t)).written
turns-Flashes ms t ts up =
    turns-IsFlashing (period ms) t ts (start t) up (start-IsFlashing (period ms) t)
