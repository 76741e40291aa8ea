-- ===== src/Solutions/ProcFiles.antt =====
-- src/solutions/03_drivers/exercice10/skeleton.c: two files under /proc. `count` is a number of 64
-- bits without sign, and `len` an `int`.
use mse_ma_csel.Common.{
  ℕ, ◌+◌, ◌-◌, ◌%◌, ◌^◌, ◌<◌, ◌≡◌, Bool, true, false, List, [], ◌∷◌, ◌++◌, take, length, ltb, leb,
  ◌==◌, if◌then◌else◌, arith,
}
use mse_ma_csel.Common.Int.{ℤ, pos, negsuc}
use mse_ma_csel.Common.Text.{Bytes}

-- How many bytes `copy_to_user` and `copy_from_user` leave out, and what `simple_strtol` reads.
pub record User : Type 0 where
  pub to_user : Bytes → ℕ → ℕ
  pub from_user : Bytes → ℕ → ℕ
  pub simple_strtol : Bytes → ℤ

-- `len - off` as an `int`, compared as a `size_t`.
abbrev pub left_of : (len off : ℕ) → ℕ
left_of len off =
    let n = (len + (2 ^ 32 - off % 2 ^ 32)) % 2 ^ 32 in
    if ltb n (2 ^ 31) then n else n + (2 ^ 64 - 2 ^ 32)

-- A read of a file: the result, the bytes that go to the caller, the new position, and whether
-- bytes behind `temp` are read.
pub record Read : Type 0 where
  pub result : ℤ
  pub given : Bytes
  pub off : ℕ
  pub outside : Bool

-- `temp` has `size` bytes, and starts with `text`. -14 is -EFAULT.
abbrev read_file : User → (size : ℕ) → (text : Bytes) → (count off : ℕ) → Read
read_file user size text count off =
    let left = left_of (length text) off in
    let n = if ltb left count then left else count in
    record {
      result = if user.to_user text n == 0 then pos n else negsuc 13;
      given = take n text;
      off = off + n;
      outside = ltb size n;
    }

unfoldable pub skeleton_read_config : User → Bytes → (count off : ℕ) → Read
skeleton_read_config user text count off = read_file user 200 text count off

unfoldable pub skeleton_read_val : User → Bytes → (count off : ℕ) → Read
skeleton_read_val user text count off = read_file user 20 text count off

-- The result and `val`, where `stack` is what `temp` held behind the bytes. -5 is -EIO.
unfoldable pub skeleton_write_val : User → (stack buf : Bytes) → (count : ℕ) → ℤ → ℤ × ℤ
skeleton_write_val user stack buf count val =
    if ltb 20 count
    then (negsuc 4, val)
    else if user.from_user buf count == 0
    then (pos count, user.simple_strtol (take count buf ++ stack))
    else (negsuc 13, val)

-- A read at a position up to the end, where the text fits `temp` and all bytes are copied: it gives
-- as many bytes as asked for, or as are left, and moves the position past them; but they are the
-- first bytes of the text, wherever the position is. From a position behind the end on, by up to 2
-- ^ 31, `count` is not cut, and more than 20 bytes are read from behind `temp`.
pub skeleton_read_val_gives :
    (user : User) (text : Bytes) (count off : ℕ)
    → length text < 20
    → off < 2 ^ 31
    → count < 2 ^ 63
    → ((n : ℕ) → user.to_user text n ≡ 0)
    → let r = skeleton_read_val user text count off in
      if leb off (length text)
      then (let n = (if ltb (length text - off) count then length text - off else count) in
          (r.result ≡ pos n) × (r.given ≡ take n text) × (r.off ≡ off + n) × (r.outside ≡ false))
      else (r.outside ≡ ltb 20 count)
unfolding skeleton_read_val
skeleton_read_val_gives user text count off small near word all =
    ground (arith, all count, all (length text - off))

-- An entry of /proc: in the module's directory or not, and which.
pub data ProcEntry : Type 0 where
  mymodule config val : (inside : Bool) → ProcEntry

-- Whether the calls of `proc_mkdir` and `proc_create` are granted.
pub record ProcFs : Type 0 where
  pub proc_mkdir : Bool
  pub proc_create : ProcEntry → Bool

abbrev pub same : ProcEntry → ProcEntry → Bool
same (mymodule a) (mymodule b) = true
same (config true) (config true) = true
same (config false) (config false) = true
same (val true) (val true) = true
same (val false) (val false) = true
same _ _ = false

abbrev pub created : ProcFs → ProcEntry → List ProcEntry → List ProcEntry
created proc e es = if proc.proc_create e then e ∷ es else es

abbrev pub remove_proc_entry : ProcEntry → List ProcEntry → List ProcEntry
remove_proc_entry e [] = []
remove_proc_entry e (f ∷ es) = if same e f then es else f ∷ remove_proc_entry e es

-- The status, and the entries that are there. A parent that is NULL stands for /proc.
unfoldable pub skeleton_init : ProcFs → ℤ × List ProcEntry
skeleton_init proc =
    let dir = proc.proc_mkdir in
    let es = if dir then mymodule false ∷ [] else [] in
    (if dir then pos 0 else negsuc 13, created proc (val dir) (created proc (config dir) es))

-- The unload of a module whose directory was made.
unfoldable pub skeleton_exit : List ProcEntry → List ProcEntry
skeleton_exit es =
    remove_proc_entry (mymodule false)
      (remove_proc_entry (config true) (remove_proc_entry (val true) es))

-- Whether a file can be made or not: if the load returns 0, the unload leaves no entry. If the
-- directory is refused, the load returns -EFAULT, and leaves in /proc itself the files that were
-- granted, of a module that is not there.
pub skeleton_exit_empties :
    (proc : ProcFs)
    → let (status, es) = skeleton_init proc in
      if proc.proc_mkdir
      then ((status ≡ pos 0) × (skeleton_exit es ≡ []))
      else ((status ≡ negsuc 13) × (es ≡ created proc (val false) (created proc (config false) [])))
unfolding skeleton_init skeleton_exit
skeleton_exit_empties proc = ground arith
