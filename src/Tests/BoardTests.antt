-- ===== src/Tests/BoardTests.antt =====
-- The LED controller's and the character device's theorems at concrete inputs.
use mse_ma_csel.Common.{
  ℕ, ◌+◌, ◌≡◌, Bool, true, false, not, ◌&&◌, refl, none, some, List, [], ◌∷◌, replicate, length,
  arith,
}
use mse_ma_csel.Common.Int.{pos, negsuc, is_neg, ◌+ℤ◌, ◌-ℤ◌, ◌*ℤ◌}
use mse_ma_csel.LedController.{
  ButtonFds, TimeSpec, on_event, at_least_200, time_on, timer_turn, timer_set_time,
}
use mse_ma_csel.LedController.Run.{
  Answers as Launches, Controller, flashes, first, launch, Move, event, minimum, expire, set, step,
  steps, lit_after,
}
use mse_ma_csel.LedController.Turns.{TakesTimes, IsFlashing}
use mse_ma_csel.LedController.Flashing.{flashes_on}
use mse_ma_csel.CharDevice.{Device, File, Uaccess, IsUaccess, skeleton_read, skeleton_write}
use mse_ma_csel.CharDevice.Buffers.{IsDevice, skeleton_write-IsDevice}
use mse_ma_csel.CharDevice.Contents.{read-write}
use mse_ma_csel.CharDevice.Client.{
  Client, fds, ex_character_oriented, ex_character_oriented_reads_back,
}
use mse_ma_csel.CharDevice.Loading.{
  Answers, skeleton_init, skeleton_exit, nothing, held, skeleton_exit_clean,
}

abbrev buttons : ButtonFds
buttons = record { btn0 = pos 5; btn1 = pos 6; btn2 = pos 7 }

-- Every copy succeeds.
abbrev copying : Uaccess
copying = record { to_user = λ src. (src, 0); from_user = λ src. (src, 0) }

copying-IsUaccess : IsUaccess copying
copying-IsUaccess = record {
  from_length = λ src. refl;
  from_all = λ src h. refl;
  to_all = λ src h. refl;
}

abbrev zeroes : List ℕ
zeroes = replicate 300 0

abbrev device : Device
device = record { instances = pos 2; buffers = zeroes ∷ zeroes ∷ [] }

device-IsDevice : IsDevice device
device-IsDevice = record { sized = (refl, (refl, tt)) }

abbrev file : File
file = record { minor = 1; off = 290 }

read-write_example :
    let (ret, dev', f') = skeleton_write copying device file (1 ∷ 2 ∷ 3 ∷ []) 3 in
    let (n, bytes, f'') = skeleton_read copying dev' file 3 in
    (ret ≡ pos 3) × (f'.off ≡ 293) × (n ≡ pos 3) × (bytes ≡ 1 ∷ 2 ∷ 3 ∷ [])
read-write_example =
    read-write copying device file (1 ∷ 2 ∷ 3 ∷ []) copying-IsUaccess (λ src. refl) (λ src. refl)
      device-IsDevice (omega arith) (omega arith) (omega arith)

skeleton_write-IsDevice_example :
    let (_, dev', _) = skeleton_write copying device file (replicate 20 9) 20 in
    IsDevice dev' × (length dev'.buffers ≡ 2)
skeleton_write-IsDevice_example =
    skeleton_write-IsDevice copying device file (replicate 20 9) 20 copying-IsUaccess
      device-IsDevice (omega arith)

abbrev accepting : Answers
accepting = record { alloc_chrdev_region = λ cs. pos 0; cdev_add = λ cs. pos 0 }

abbrev refusing : Answers
refusing = record { alloc_chrdev_region = λ cs. pos 0; cdev_add = λ cs. negsuc 11 }

accepting_loads : (skeleton_init accepting 3 []).0 ≡ pos 0
unfolding skeleton_init
accepting_loads = refl

skeleton_exit_clean_example :
    held (skeleton_exit 3 (skeleton_init accepting 3 []).1).1 ≡ some nothing
skeleton_exit_clean_example = skeleton_exit_clean accepting 3 accepting_loads

-- What the program passes: its text, and the two bytes behind it.
abbrev seventy : List ℕ
seventy = replicate 70 b'x'

-- A process with nothing open, for which the kernel's next descriptor is the third.
abbrev client : Client
client = record { open_files = []; data_read = replicate 70 0; device = device }

abbrev next_fd : List ℕ → ℕ
next_fd ds = 3 + length ds

ex_character_oriented_example :
    let (code, s') = ex_character_oriented copying next_fd seventy client in
    (code ≡ 0) × (s'.data_read ≡ seventy) × (fds s'.open_files ≡ 3 ∷ [])
ex_character_oriented_example =
    ex_character_oriented_reads_back copying next_fd client seventy copying-IsUaccess (λ src. refl)
      (λ src. refl) device-IsDevice refl (omega arith) refl refl

abbrev succeeding : Launches
succeeding = record {
  timerfd_create = pos 3;
  timerfd_settime = pos 0;
  epoll_create = pos 4;
  epoll_ctl = pos 0;
  pthread_create = pos 0;
}

launched : launch succeeding ≡ flashes first
unfolding launch
launched = refl

-- Presses of the first and the third button between two turns of the timer thread.
abbrev some_moves : List Move
some_moves =
    expire
    ∷ set
    ∷ event (record { fd = pos 5; value = b'1' })
    ∷ event (record { fd = pos 7; value = b'1' })
    ∷ minimum
    ∷ expire
    ∷ set
    ∷ []

-- Any time whose fields are not negative is taken.
abbrev takes_all : TimeSpec → Bool
takes_all t = not (is_neg t.tv_sec) && not (is_neg t.tv_nsec)

takes_all-TakesTimes : TakesTimes takes_all
takes_all-TakesTimes sec nsec range = ground arith

abbrev flashed : Controller
flashed = record {
  flash_period_ms = pos 1000;
  lowered = false;
  turn_at = none;
  is_led_on = false;
  lights = false ∷ true ∷ false ∷ [];
  timer = record { tv_sec = pos 0; tv_nsec = pos 980_000_000 };
  exited = false;
}

flashes_twice : steps takes_all buttons some_moves (some first) ≡ some flashed
unfolding step on_event at_least_200 time_on timer_turn timer_set_time ◌+ℤ◌ ◌-ℤ◌ ◌*ℤ◌
flashes_twice = refl

flashes_on_example : IsFlashing (lit_after some_moves false) flashed
flashes_on_example =
    flashes_on succeeding takes_all buttons some_moves first flashed takes_all-TakesTimes launched
      (omega arith) refl flashes_twice
