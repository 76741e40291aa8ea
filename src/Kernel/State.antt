-- ===== src/Kernel/State.antt =====
-- The static variables of src/06-mini-project/kernel and the calls that its code makes of the
-- Linux kernel. A call is recorded, newest first, with the answer that it got; the answers come
-- from `Linux`, which is code outside the repository: any function of the calls made so far.
use mse_ma_csel.Common.{ℕ, Bool, true, false, List, [], ◌∷◌, Proc}
use mse_ma_csel.Common.Int.{ℤ, pos, negsuc}

-- The mutexes: `temp_lock`, `regulator_lock` and `sysfs_lock`.
pub data Lock : Type 0 where
  temp_lock regulator_lock sysfs_lock : Lock

-- The threads: `thread_blinkThread` and `regulator_thread_fn`.
pub data Task : Type 0 where
  blink_task regulator_task : Task

-- A pointer that the kernel returns; `err_ptr e` is `ERR_PTR(-e)`.
pub data Ptr : Type 0 where
  null valid : Ptr
  err_ptr : ℕ → Ptr

abbrev pub is_err : Ptr → Bool
is_err (err_ptr _) = true
is_err _ = false

abbrev pub is_null : Ptr → Bool
is_null null = true
is_null _ = false

-- `PTR_ERR`
abbrev pub ptr_err : Ptr → ℤ
ptr_err (err_ptr ℕ.zero) = pos 0
ptr_err (err_ptr (ℕ.suc e)) = negsuc e
ptr_err _ = pos 0

pub data Call : Type 0 where
  mutex_lock mutex_unlock : Lock → Call
  request_mem_region ioremap : Bool → Call
  release_mem_region iounmap : Call
  ioread32 : ℕ → Call
  gpio_request gpio_direction_output : ℤ → Call
  gpio_free : Call
  gpio_set_value : Bool → Call
  kthread_run kthread_stop : Task → Ptr → Call
  kthread_should_stop : Task → Bool → Call
  msleep : ℕ → Call
  class_create device_create : Ptr → Call
  class_destroy device_destroy sysfs_remove_group : Call
  sysfs_create_group : ℤ → Call

-- The answers of the kernel.
pub record Linux : Type 0 where
  pub request_mem_region : List Call → Bool
  pub ioremap : List Call → Bool
  pub ioread32 : List Call → ℕ
  pub gpio_request : List Call → ℤ
  pub gpio_direction_output : List Call → ℤ
  pub kthread_run : Task → List Call → Ptr
  pub kthread_should_stop : Task → List Call → Bool
  pub class_create : List Call → Ptr
  pub device_create : List Call → Ptr
  pub sysfs_create_group : List Call → ℤ

-- The table of callbacks that `device_cbs` (sysfs.c) holds: zeroes, or the regulator's `sysfs_cbs`.
pub data SysfsTable : Type 0 where
  no_callbacks sysfs_cbs : SysfsTable

-- The table that `regulator_cbs` (regulator.c) holds: zeroes, or `adjust_period` and `read_temp`.
pub data RegulatorTable : Type 0 where
  no_functions module_cbs : RegulatorTable

pub record Kernel : Type 0 where
  pub temp_res : Bool  -- `temp_res != NULL`
  pub temp_reg : Bool  -- `temp_reg != NULL`
  pub blink_thread : Ptr
  pub blink_period_ms : ℤ
  pub current_mode : ℤ
  pub current_period : ℕ  -- uint32_t
  pub regulator_thread : Ptr
  pub regulator_cbs : RegulatorTable
  pub device_cbs : SysfsTable
  pub sysfs_class : Ptr
  pub sysfs_device : Ptr
  pub fault : Bool  -- a NULL function pointer was called
  pub calls : List Call

-- The initial values; `blink_period_ms` has static storage.
abbrev pub boot : Kernel
boot = record {
  temp_res = false;
  temp_reg = false;
  blink_thread = null;
  blink_period_ms = pos 0;
  current_mode = pos 1;
  current_period = 1000;
  regulator_thread = null;
  regulator_cbs = no_functions;
  device_cbs = no_callbacks;
  sysfs_class = null;
  sysfs_device = null;
  fault = false;
  calls = [];
}

abbrev pub KernelProc : Type 0 → Type 0
KernelProc = Proc Kernel

-- A call whose answer the code does not read.
abbrev pub emit : Call → KernelProc (Unit {0})
emit c k = (tt, record k { calls = c ∷ k.calls })

-- A call and its answer.
abbrev pub ask : {A : Type 0} → (List Call → A) → (A → Call) → KernelProc A
ask answer event k = let a = answer k.calls in (a, record k { calls = event a ∷ k.calls })

abbrev pub lock : Lock → KernelProc (Unit {0})
lock l = emit (mutex_lock l)

abbrev pub unlock : Lock → KernelProc (Unit {0})
unlock l = emit (mutex_unlock l)
