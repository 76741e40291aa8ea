-- ===== src/Lib.antt =====
-- Verification of the temperature regulator of src/06-mini-project, and of the labs before it: the first
-- kernel modules, the drivers, the LED controller, the processes and the optimised routines.
--
-- The mini-project has three programs. A Linux module (kernel/) reads the CPU's temperature, blinks a
-- LED, and offers the files temperature, mode, period_status and period_set under
-- /sys/class/temp_regulator/regulator; in automatic mode a thread chooses the LED's period by the
-- temperature. A daemon (daemon/) reads and writes these files for three buttons, for a display and for
-- messages on a local socket. A command line (cli/) sends the messages.
--
-- Each program's code is a function on an explicit state (`Proc` of Common/State: the result and the
-- new state). Code outside the repository is a parameter: the Linux kernel (`Linux`, Kernel/State), the
-- C library (`Posix`, Daemon/Posix; `Answers`, Daemon/Ipc/Server and CharDevice/Loading; `Uaccess`,
-- CharDevice), the printing and reading of numbers (`Format`, Common/Text) and `atoi`. Its calls are
-- recorded in the state, newest first, with the answers, which are any functions of the calls before.
-- Monitors read such a record and give what is held after it, or `none` after a misuse.
--
-- Kernel/State: the static variables of all files of kernel/, and the calls.
-- Kernel/Temp: kernel/temperature/temp.c. Kernel/Temp/Formula: what the two formulas compute.
-- Kernel/Blink: kernel/blink/blink.c.
-- Kernel/Callbacks, Kernel/Regulator: kernel/regulator/regulator.c (the `cb_` functions; the rest).
-- Kernel/Regulator/Invariant, Behaviour, Interleaving: its invariant, one round of its thread, and its
--   critical sections beside the sysfs handlers as a step relation.
-- Kernel/Sysfs: kernel/sysfs/sysfs.c. Kernel/Entries: the ways into the loaded module.
-- Kernel/Spec: an abstract control of mode and period, and what each request makes of it;
--   Kernel/Refinement: the module's uses are such requests. Kernel/Observation: what its users can tell
--   apart; States: its states up to that.
-- Kernel/Module: kernel/main.c. Kernel/Session: a whole life of the module.
-- Kernel/Monitor: the rules of the kernel's calls; Handlers, Lifecycle and BlinkFailure apply them.
-- Daemon/State, Daemon/App, Daemon/Files: daemon/application (app.c and sysfs.c).
-- Daemon/Queue: the queue of animations of app.c, over any order of button presses and turns.
-- Daemon/Main: the callbacks that daemon/main.c registers. Daemon/Start: its `main`; Ending proves.
-- Daemon/LockOrder: the order of the mutexes, of the application's operations one by one; Threads and
--   Progress: threads that keep such an order, in any interleaving; Works: the daemon's own.
-- Daemon/Ipc: daemon/ipc/ipc_server.c and common/common_ipc.h (Message, Server; Life proves).
-- Daemon/Led, Daemon/Button: daemon/gpio/led.c and button.c. Daemon/Ssd1306: daemon/oled/ssd1306.c.
-- Daemon/Oled: daemon/oled/oled.c; Rows: what is written to the screen by it.
-- Cli: cli/main.c.
-- System: the daemon and the command line over the module's files (Link, Operations, Commands, Buttons);
--   Spec, Refinement and Run: any run of the program beside the abstract control; Display: from the kernel's
--   variables to the screen. Sharing: the operations of app.c step by step, in threads that share
--   `app_lock`, beside calls that do not take it; Steps and Serial show when this is the operations one
--   after another, Counted that no increase is lost, LostUpdate when a message is.
-- LedController: src/03-led-controller. Gpio: its files; Period: the period that the buttons leave, and
--   the timing; Run: its start, and the two threads, which share the period without a lock, statement by
--   statement; Turns: whole events and turns; Flashing: that it goes on while these are not interrupted;
--   Disarmed: how it stops when they are.
-- CharDevice: src/02-driver/character-oriented/skeleton.c (Buffers, Contents, Loading). Client:
--   src/02-driver/exercice/ex4-character-oriented.c and src/02-driver/main.c over it.
-- SysfsDevice: src/02-driver/sysfs/skeleton.c.
-- Labs: Fibonacci (solutions/01_environment/fibonacci/fibonacci.c), Sum and Matrix (src/05-optimization/ex02
--   and ex01, basic.c and optimized.c), Toggle (gpio.c, mmio.c and clock.c of src/05-optimization) and
--   ChipId (src/02-driver/exercice/ex1-memory-oriented.c).
-- Skeleton: src/01-skeleton/kernel-module: Elements (s02e04), IoMemory (s02e05), Sleeping (s02e07),
--   Interrupt (s02e08) and Kthreads (s02e06, and the making and the end of the threads of s02e07), each with
--   its proofs in child modules. Module: src/01-skeleton/skeleton.c.
-- Multiprocessing: src/04-multiprocessing: Cgroups (cgroups.c), Process (process.c; Delivery: its messages;
--   Signals: its signals and its `main`) and MaxCpu (max-cpu.c).
-- Solutions: solutions/03_drivers: BufferDevice (exercice02, with its Loading), Children (exercice06.1; LastOnly: sample06.3),
--   ProcFiles (exercice10); solutions/02_modules: Elements (exercice04), Interrupts (exercice08);
--   SillyLed (solutions/04_system/silly); solutions/01_environment: LeakingList (memory_leaks/mem_leaks.c),
--   Daemonize (daemon/daemon.c).
-- Tests: concrete inputs.
--
-- Numbers are natural; `uint32_t` is kept below 2 ^ 32 by a written `%`, `int` is Common/Int's ℤ with
-- the conversions of Common/Words. The kernel's threads run on fuel: `none` is the fuel's end, and
-- enough fuel is given by a theorem where the thread is asked to stop. The loop of the server's thread
-- and of the buttons' thread go over the list of what the calls that they wait in return. The loop
-- of s02e04 runs on fuel, and more fuel than elements is enough; from 256 elements on none is.
-- The thread of s02e06 runs on one more than the rounds after which it is asked to stop.
--
-- Not modelled: what is printed and logged; the waiting itself (sleeps, condition variables,
-- epoll), but for the wait queues of s02e07, whose waits are steps with a condition; floating-point
-- numbers and their printing, a parameter of Daemon/Oled; that `kzalloc` may fail, but for
-- exercice04 and the platform drivers; the processors that a process is bound to; the endless loops of
-- the measurements, and programs that only spend time (gcov, gprof, trace); the other course
-- solutions, which are versions of the same exercises, samples that only print, or programs of other
-- authors. In System/Run the daemon's functions run one after another; their interleaving is modelled by
-- the mutexes that they take (Daemon/LockOrder) and by their reads and writes of the files
-- (System/Sharing), each file access as one step. A `long` of fibonacci.c and the sum of ex02 have no
-- bound in the model; that the values fit is part of the theorems.
pub mod Common
pub mod Kernel
pub mod Daemon
pub mod Cli
pub mod System
pub mod LedController
pub mod CharDevice
pub mod Labs
pub mod Skeleton
pub mod SysfsDevice
pub mod Solutions
pub mod Multiprocessing
pub mod Tests
