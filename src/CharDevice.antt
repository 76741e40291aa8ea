-- ===== src/CharDevice.antt =====
-- src/02-driver/character-oriented/skeleton.c: a character device with a buffer for each minor
-- number.
pub mod Buffers
pub mod Contents
pub mod Loading
pub mod Client
use mse_ma_csel.Common.{
  ℕ, zero, suc, ◌+◌, ◌-◌, Bool, Option, none, some, List, [], ◌∷◌, ◌++◌, take, drop, length, get_or,
  leb, ◌==◌, ◌≡◌, if◌then◌else◌,
}
use mse_ma_csel.Common.Int.{ℤ, pos, negsuc}
use mse_ma_csel.Common.Words.{u32}
use Prim.Native.Nat.{min}

-- `BUFFER_SIZE`
abbrev pub buffer_size : ℕ
buffer_size = 300

-- `devs.buffers`, a buffer for each instance.
pub record Device : Type 0 where
  pub instances : ℤ
  pub buffers : List (List ℕ)

-- An open file: the minor number of the buffer that `private_data` points to, and the position.
pub record File : Type 0 where
  pub minor : ℕ
  pub off : ℕ

-- `copy_to_user` and `copy_from_user`: the bytes that arrive, and how many did not.
pub record Uaccess : Type 0 where
  pub to_user : List ℕ → List ℕ × ℕ
  pub from_user : List ℕ → List ℕ × ℕ

-- As many bytes are stored as were asked for, and these are the source's if all were copied.
pub record IsUaccess (user : Uaccess) : Type 0 where
  pub from_length : (src : List ℕ) → length (user.from_user src).0 ≡ length src
  pub from_all : (src : List ℕ) → (user.from_user src).1 ≡ 0 → (user.from_user src).0 ≡ src
  pub to_all : (src : List ℕ) → (user.to_user src).1 ≡ 0 → (user.to_user src).0 ≡ src

-- `buffers[i]` replaced.
abbrev pub set {ℓ} : {A : Type ℓ} → List A → ℕ → A → List A
set [] i v = []
set (x ∷ xs) zero v = v ∷ xs
set (x ∷ xs) (suc i) v = x ∷ set xs i v

-- Bytes stored at a position of a buffer.
abbrev pub store : List ℕ → ℕ → List ℕ → List ℕ
store buf off bytes = take off buf ++ (bytes ++ drop (off + length bytes) buf)

-- `iminor(i) >= instances` compares unsigned numbers. `-EFAULT` is -14.
unfoldable pub skeleton_open : Device → ℕ → ℤ × Option File
skeleton_open dev minor =
    if leb (u32 dev.instances) minor
    then (negsuc 13, none)
    else (pos 0, some (record { minor = minor; off = 0 }))

module _ (user : Uaccess) where
  -- The result, the bytes that the caller gets, and the file.
  unfoldable pub skeleton_read : Device → File → ℕ → ℤ × List ℕ × File
  skeleton_read dev f count =
      if leb buffer_size f.off
      then (pos 0, [], f)
      else let len = min (buffer_size - f.off) count in
        let (bytes, missing) =
          user.to_user (take len (drop f.off (get_or dev.buffers f.minor []))) in
        if missing == 0
        then (pos len, bytes, record f { off = f.off + len })
        else (negsuc 13, bytes, f)

  -- `buf` is what the caller passes, of `count` bytes. `-ENOSPC` is -28.
  unfoldable pub skeleton_write : Device → File → List ℕ → ℕ → ℤ × Device × File
  skeleton_write dev f buf count =
      if leb buffer_size f.off
      then (negsuc 27, dev, f)
      else let len = min (buffer_size - f.off) count in
        let (bytes, missing) = user.from_user (take len buf) in
        let dev' : Device = record dev {
          buffers = set dev.buffers f.minor (store (get_or dev.buffers f.minor []) f.off bytes);
        } in
        if missing == 0
        then (pos len, dev', record f { off = f.off + len })
        else (negsuc 13, dev', f)
