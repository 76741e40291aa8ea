-- ===== src/LedController/Run.antt =====
-- src/03-led-controller/main.c as a whole: its start, the set-up of its threads, and any order of
-- events of the buttons and of the timer.
use mse_ma_csel.Common.{
  ℕ, Bool, true, false, not, ◌&&◌, ◌||◌, Option, none, some, List, [], ◌∷◌, if◌then◌else◌, ◌>>=◌,
  ◌>>◌, pure, gets,
}
use mse_ma_csel.Common.Int.{ℤ, pos, is_zero}
use mse_ma_csel.Daemon.Posix.{Posix, Call, epoll_add}
use mse_ma_csel.Daemon.Led.{LedProc, emit, is_minus_one}
use mse_ma_csel.LedController.{
  default_time_ms, ButtonFds, Event, on_event, lowers, at_least_200, TimeSpec, timer_set_time,
  time_on, timer_turn,
}
use mse_ma_csel.LedController.Gpio.{led_open, led_off, btn_open}

-- What the two threads share, `flash_period_ms`, without a lock, and what each keeps: the button
-- thread, whether it is between the two statements of the third button's branch; the timer thread,
-- between its two looks at the period, the `time_on_ms` of the first, and whether the LED is on.
-- The rest is what was written to the LED, newest first, how the timer was last set, and the end by
-- `exit`.
pub record Controller : Type 0 where
  pub flash_period_ms : ℤ
  pub lowered : Bool
  pub turn_at : Option ℤ
  pub is_led_on : Bool
  pub lights : List Bool
  pub timer : TimeSpec
  pub exited : Bool

-- The results of the calls of `main`, in their order.
pub record Answers : Type 0 where
  pub timerfd_create : ℤ
  pub timerfd_settime : ℤ
  pub epoll_create : ℤ
  pub epoll_ctl : ℤ
  pub pthread_create : ℤ

-- `main` ends by `exit`, or its threads run.
pub data Launch : Type 0 where
  exits : ℕ → Launch
  flashes : Controller → Launch

-- `data` of `main`, with the timer set for a first period, and the LED as `set_up_led` leaves it.
abbrev pub first : Controller
first = record {
  flash_period_ms = pos default_time_ms;
  lowered = false;
  turn_at = none;
  is_led_on = false;
  lights = false ∷ [];
  exited = false;
  timer = timer_set_time (pos default_time_ms);
}

-- `main`, with the functions of timer.c that it calls.
unfoldable pub launch : Answers → Launch
launch os =
    if is_minus_one os.timerfd_create
    then exits 10
    else if is_minus_one os.timerfd_settime
    then exits 11
    else if is_minus_one os.epoll_create
    then exits 20
    else if is_minus_one os.epoll_ctl
    then exits 21
    else if not (is_zero os.pthread_create)
    then exits 30
    else flashes first

module _ (os : Posix) where
  -- `btn_thread` up to its loop: a failure is only reported.
  unfoldable pub set_up_buttons : LedProc ButtonFds
  set_up_buttons = do
    btn0 ← btn_open os "/sys/class/gpio/gpio0" "0"
    btn1 ← btn_open os "/sys/class/gpio/gpio2" "2"
    btn2 ← btn_open os "/sys/class/gpio/gpio3" "3"
    epfd ← gets (λ s. os.epoll_create s.calls)
    emit (Call.epoll_create epfd)
    emit (epoll_add btn0)
    emit (epoll_add btn1)
    emit (epoll_add btn2)
    value0 ← gets (λ s. os.pread btn0 s.calls)
    emit (Call.pread btn0 value0)
    value1 ← gets (λ s. os.pread btn1 s.calls)
    emit (Call.pread btn1 value1)
    value2 ← gets (λ s. os.pread btn2 s.calls)
    emit (Call.pread btn2 value2)
    pure (record { btn0 = btn0; btn1 = btn1; btn2 = btn2 })

  -- `timer_thread` up to its loop.
  unfoldable pub set_up_led : LedProc ℤ
  set_up_led = do led ← led_open os "/sys/class/gpio/gpio10" "10"; led_off led; pure led

-- The button thread takes an event and runs the first statement of its branch, and then the second
-- one of the third button's; the timer thread is woken and looks at the period for `time_on_ms`,
-- and then once more and sets the timer.
pub data Move : Type 0 where
  event : Event → Move
  minimum expire set : Move

-- A timer that is set to zero does not go off.
abbrev pub is_off : TimeSpec → Bool
is_off t = is_zero t.tv_sec && is_zero t.tv_nsec

abbrev is_waiting : Option ℤ → Bool
is_waiting none = true
is_waiting (some t) = false

-- `accepts` is what `timerfd_settime` makes of a time: it fails, and the program ends, or not.
module _ (accepts : TimeSpec → Bool) (btn : ButtonFds) where
  abbrev finish : Option ℤ → Controller → Option Controller
  finish none s = none
  finish (some time_on_ms) s =
      let flash = timer_turn time_on_ms s.flash_period_ms s.is_led_on in
      some (record s {
        turn_at = none;
        is_led_on = flash.is_led_on;
        lights = flash.written ∷ s.lights;
        timer = flash.timer;
        exited = not (accepts flash.timer);
      })

  -- `none` where the thread is not at the move, or the program has ended.
  abbrev move : Move → Controller → Option Controller
  move (event e) s =
      if s.lowered
      then none
      else some
          (record s { flash_period_ms = on_event btn e s.flash_period_ms; lowered = lowers btn e })
  move minimum s =
      if s.lowered
      then some (record s { flash_period_ms = at_least_200 s.flash_period_ms; lowered = false })
      else none
  move expire s =
      if is_off s.timer || not (is_waiting s.turn_at)
      then none
      else some (record s { turn_at = some (time_on s.flash_period_ms) })
  move set s = finish s.turn_at s

  unfoldable pub step : Move → Controller → Option Controller
  step m s = if s.exited then none else move m s

  abbrev pub steps : List Move → Option Controller → Option Controller
  steps [] s = s
  steps (m ∷ ms) none = none
  steps (m ∷ ms) (some s) = steps ms (step m s)

-- The LED after the timer's turns.
abbrev pub lit_after : List Move → Bool → Bool
lit_after [] on = on
lit_after (set ∷ ms) on = lit_after ms (not on)
lit_after (_ ∷ ms) on = lit_after ms on

abbrev next_is_set : List Move → Bool
next_is_set [] = true
next_is_set (set ∷ _) = true
next_is_set _ = false

abbrev next_is_minimum : List Move → Bool
next_is_minimum [] = true
next_is_minimum (minimum ∷ _) = true
next_is_minimum _ = false

-- No thread moves between the timer thread's two looks at the period, or between the two statements
-- of the third button's branch.
abbrev pub calm : ButtonFds → List Move → Bool
calm btn [] = true
calm btn (event e ∷ ms) = (not (lowers btn e) || next_is_minimum ms) && calm btn ms
calm btn (expire ∷ ms) = next_is_set ms && calm btn ms
calm btn (_ ∷ ms) = calm btn ms
