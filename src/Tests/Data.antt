-- ===== src/Tests/Data.antt =====
-- Answers of the outside world, and states, that the tests run at.
use mse_ma_csel.Common.{
  ℕ, ◌^◌, ◌≡◌, ◌<◌, true, none, some, [], ◌∷◌, length, ltb, leb, if◌then◌else◌, Option, inl, refl,
  arith,
}
use mse_ma_csel.Common.Int.{ℤ, pos, negsuc}
use mse_ma_csel.Common.Text.{Bytes, Format, IsFaithful}
use mse_ma_csel.Kernel.State.{Linux, Kernel, valid, boot, sysfs_cbs, module_cbs}
use mse_ma_csel.Kernel.Regulator.Invariant.{IsRegulated}
use mse_ma_csel.Kernel.Monitor.Lifecycle.{HasAnswers, HasLed}
use mse_ma_csel.Daemon.State.{Daemon}
use mse_ma_csel.System.Link.{IsUp}

-- A kernel that grants everything and stops its threads after forty calls; the sensor shows 1300.
abbrev pub granting : Linux
granting = record {
  request_mem_region = λ cs. true;
  ioremap = λ cs. true;
  ioread32 = λ cs. 1300;
  gpio_request = λ cs. pos 0;
  gpio_direction_output = λ cs. pos 0;
  kthread_run = λ t cs. valid;
  kthread_should_stop = λ t cs. leb 40 (length cs);
  class_create = λ cs. valid;
  device_create = λ cs. valid;
  sysfs_create_group = λ cs. pos 0;
}

-- The same, but the LED's pin is in use.
abbrev pub busy : Linux
busy = record granting { gpio_request = λ cs. negsuc 15 }

pub busy-HasAnswers : HasAnswers busy
busy-HasAnswers = record {
  threads = λ t cs. inl refl;
  classes = λ cs. inl refl;
  devices = λ cs. inl refl;
}

pub granting-HasAnswers : HasAnswers granting
granting-HasAnswers = record {
  threads = λ t cs. inl refl;
  classes = λ cs. inl refl;
  devices = λ cs. inl refl;
}

pub granting-HasLed : HasLed granting
granting-HasLed = record { pin = λ cs. refl; output = λ cs. refl; blinks = λ cs. refl }

-- A number as a text of one character.
abbrev read_below : ℕ → Bytes → Option ℕ
read_below bound [] = none
read_below bound (n ∷ ns) = if ltb n bound then some n else none

abbrev read_int : Bytes → Option ℤ
read_int [] = none
read_int (n ∷ ns) = if ltb n (2 ^ 31) then some (pos n) else none

abbrev print_int : ℤ → Bytes
print_int (pos n) = n ∷ []
print_int (negsuc n) = []

abbrev pub plain : Format
plain = record {
  print_u = λ n. n ∷ [];
  print_d = print_int;
  print_milli = λ a b. a ∷ b ∷ [];
  kstrtouint = read_below (2 ^ 32);
  kstrtoint = read_int;
  scan_u = read_below (2 ^ 32);
}

read_below-lt : (bound : ℕ) (b : Bytes) {n : ℕ} → read_below bound b ≡ some n → n < bound
read_below-lt bound [] h = ground arith
read_below-lt bound (m ∷ ms) h = ground arith

pub plain-IsFaithful : IsFaithful plain
plain-IsFaithful = record {
  uint_back = λ n w. ground arith;
  uint_range = read_below-lt (2 ^ 32);
  int_back = λ n w. ground arith;
  int_range = λ n w. ground arith;
  scan_back = λ n w. ground arith;
  scan_int = λ n w. ground arith;
}

-- A loaded module in manual mode, at a period of 500 ms.
abbrev pub manual_kernel : Kernel
manual_kernel = record boot {
  temp_res = true;
  temp_reg = true;
  blink_thread = valid;
  blink_period_ms = pos 500;
  current_mode = pos 0;
  current_period = 500;
  regulator_thread = valid;
  regulator_cbs = module_cbs;
  device_cbs = sysfs_cbs;
  sysfs_class = valid;
  sysfs_device = valid;
}

abbrev pub auto_kernel : Kernel
auto_kernel = record manual_kernel { current_mode = pos 1 }

pub manual-IsRegulated : IsRegulated manual_kernel
manual-IsRegulated = ground arith

pub auto-IsRegulated : IsRegulated auto_kernel
auto-IsRegulated = ground arith

abbrev pub daemon : Daemon Kernel
daemon = record {
  world = manual_kernel;
  locks = [];
  led = true;
  pending_animations = 2;
  keep_running = true;
  lights = [];
}

pub daemon-IsUp : IsUp daemon.world
daemon-IsUp = record { regulated = manual-IsRegulated; linked = refl; mapped = refl }
