-- ===== src/Daemon/Posix.antt =====
-- The calls that the daemon makes of the C library for its files under /sys/class/gpio. They are
-- recorded, newest first, with their answers; `Posix` gives the answers, any functions of the calls
-- made so far.
use Prim.Native.String.{String}
use native.Mathlib.Omega.{arith}
use mathlib.Core.Path.{◌≡◌}
use mathlib.Core.Logic.{◌⊎◌}
use mse_ma_csel.Common.{
  ℕ, Bool, true, false, Option, none, some, List, [], ◌∷◌, ◌==◌, if◌then◌else◌,
}
use mse_ma_csel.Common.Int.{ℤ, pos, negsuc, is_neg}

pub data Call : Type 0 where
  open_file : String → ℤ → Call
  close : ℤ → Call
  write pwrite : ℤ → String → Call
  pread : ℤ → ℕ → Call
  mutex_init : ℤ → Call
  mutex_destroy mutex_lock mutex_unlock lock_list unlock_list : Call
  epoll_create pthread_create : ℤ → Call
  epoll_add : ℤ → Call

-- `pread` gives the first byte that it stores.
pub record Posix : Type 0 where
  pub open_file : String → List Call → ℤ
  pub pread : ℤ → List Call → ℕ
  pub mutex_init : List Call → ℤ
  pub epoll_create : List Call → ℤ
  pub pthread_create : List Call → ℤ

abbrev pub same_fd : ℤ → ℤ → Bool
same_fd (pos m) (pos n) = m == n
same_fd (negsuc m) (negsuc n) = m == n
same_fd _ _ = false

-- The descriptors that are open, the last one first; `none` once one is closed that is not the last
-- one opened. A descriptor below 0 is none, and closing it has no effect.
abbrev pub close_fd : ℤ → List ℤ → Option (List ℤ)
close_fd fd [] = none
close_fd fd (g ∷ gs) = if same_fd fd g then some gs else none

abbrev pub follow : Call → Option (List ℤ) → Option (List ℤ)
follow c none = none
follow (open_file p fd) (some gs) = if is_neg fd then some gs else some (fd ∷ gs)
follow (close fd) (some gs) = if is_neg fd then some gs else close_fd fd gs
follow _ (some gs) = some gs

abbrev pub open_fds : List Call → Option (List ℤ)
open_fds [] = some []
open_fds (c ∷ cs) = follow c (open_fds cs)

pub same_fd_refl : (fd : ℤ) → same_fd fd fd ≡ true
same_fd_refl (pos n) = ground arith
same_fd_refl (negsuc n) = ground arith

-- What `open` returns: a descriptor, or -1.
abbrev pub OpensOrFails : Posix → Type 0
OpensOrFails os =
    (path : String) (cs : List Call)
    → ((n : ℕ) × (os.open_file path cs ≡ pos n)) ⊎ (os.open_file path cs ≡ negsuc 0)
