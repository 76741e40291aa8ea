-- ===== src/CharDevice/Client.antt =====
-- src/02-driver/exercice/ex4-character-oriented.c: a program that writes to the driver's first
-- device, and opens it again to read. Its calls go to the driver's handlers, through the table of
-- its open files.
use mse_ma_csel.Common.{
  ℕ, ◌<◌, ◌≡◌, refl, true, false, Option, none, some, List, [], ◌∷◌, ◌++◌, drop, length, replicate,
  leb, ◌==◌, if◌then◌else◌, Proc, ◌>>=◌, ◌>>◌, pure, arith,
}
use mathlib.Core.List.{append-nil}
use mse_ma_csel.Common.Int.{ℤ, pos, negsuc, is_neg}
use mse_ma_csel.Common.Words.{u32}
use mse_ma_csel.CharDevice.{
  Device, File, Uaccess, IsUaccess, skeleton_open, skeleton_read, skeleton_write,
}
use mse_ma_csel.CharDevice.Buffers.{IsDevice}
use mse_ma_csel.CharDevice.Contents.{read-write}

-- `DATA_LENGTH`
abbrev pub data_length : ℕ
data_length = 70

-- An open descriptor and its file.
pub record OpenFile : Type 0 where
  pub fd : ℕ
  pub file : File

-- The process: the open files, the last one opened first, its `data_read`, and the device.
pub record Client : Type 0 where
  pub open_files : List OpenFile
  pub data_read : List ℕ
  pub device : Device

abbrev pub fds : List OpenFile → List ℕ
fds [] = []
fds (o ∷ os) = o.fd ∷ fds os

abbrev lookup : ℕ → List OpenFile → Option File
lookup fd [] = none
lookup fd (o ∷ os) = if o.fd == fd then some o.file else lookup fd os

abbrev replace : ℕ → File → List OpenFile → List OpenFile
replace fd f [] = []
replace fd f (o ∷ os) = if o.fd == fd then record o { file = f } ∷ os else o ∷ replace fd f os

abbrev remove : ℕ → List OpenFile → List OpenFile
remove fd [] = []
remove fd (o ∷ os) = if o.fd == fd then os else o ∷ remove fd os

-- Bytes that are read to the start of `data_read`.
abbrev filled : List ℕ → List ℕ → List ℕ
filled bytes old = bytes ++ drop (length bytes) old

-- The kernel's choice of a descriptor is `fresh`, of those that are in use.
module _ (user : Uaccess) (fresh : List ℕ → ℕ) where
  -- `open(path, O_RDWR)` of the first device.
  abbrev opened : Option File → Proc Client ℤ
  opened none s = (negsuc 0, s)
  opened (some f) s =
      let fd = fresh (fds s.open_files) in
      (pos fd, record s { open_files = record { fd = fd; file = f } ∷ s.open_files })

  pub open_device : Proc Client ℤ
  open_device s = opened (skeleton_open s.device 0).1 s

  -- An error of the handler is -1 for the caller.
  abbrev result : ℤ → ℤ
  result ret = if is_neg ret then negsuc 0 else ret

  abbrev write_file : Option File → ℤ → List ℕ → Proc Client ℤ
  write_file (some f) (pos fd) content s =
      let (ret, dev', f') = skeleton_write user s.device f content data_length in
      (result ret, record s { device = dev'; open_files = replace fd f' s.open_files })
  write_file _ _ content s = (negsuc 0, s)

  abbrev read_file : Option File → ℤ → Proc Client ℤ
  read_file (some f) (pos fd) s =
      let (ret, bytes, f') = skeleton_read user s.device f data_length in
      (
        result ret,
        record s { data_read = filled bytes s.data_read; open_files = replace fd f' s.open_files },
      )
  read_file _ _ s = (negsuc 0, s)

  abbrev file_of : ℤ → Client → Option File
  file_of (pos fd) s = lookup fd s.open_files
  file_of (negsuc e) s = none

  -- `write(fd, data, DATA_LENGTH)`, where `content` stands in memory from `data` on.
  pub write : ℤ → List ℕ → Proc Client ℤ
  write fd content s = write_file (file_of fd s) fd content s

  -- `read(fd, data_read, DATA_LENGTH)`
  pub read : ℤ → Proc Client ℤ
  read fd s = read_file (file_of fd s) fd s

  pub close : ℤ → Proc Client (Unit {0})
  close (pos fd) s = (tt, record s { open_files = remove fd s.open_files })
  close (negsuc e) s = (tt, s)

  -- The result of the second `open` goes to the same variable, before that of `write` is looked at.
  unfoldable pub ex_character_oriented : List ℕ → Proc Client ℕ
  ex_character_oriented content = do
    fd ← open_device
    if is_neg fd then pure 1 else (do
      ret ← write fd content
      fd ← open_device
      if is_neg ret then pure 1 else (do ret ← read fd; close fd; pure 0))

  -- main of src/02-driver/main.c, as it is built, with CHARACTER_ORIENTED; `data_read` is zeroed.
  unfoldable pub main : Device → List ℕ → ℕ
  main dev content =
      (ex_character_oriented content
        (record { open_files = []; data_read = replicate data_length 0; device = dev })).0

  write-instances :
      (dev : Device) (f : File) (buf : List ℕ) (n : ℕ)
      → (skeleton_write user dev f buf n).1.instances ≡ dev.instances
  unfolding skeleton_write
  write-instances dev f buf n = ground arith

  -- The client with one more file.
  abbrev open_at : ℕ → File → Client → Client
  open_at fd f s = record s { open_files = record { fd = fd; file = f } ∷ s.open_files }

  same_fd : (n : ℕ) → (n == n) ≡ true
  same_fd n = ground arith

  open_device_lem :
      (s : Client)
      → leb (u32 s.device.instances) 0 ≡ false
      → open_device s ≡ (
        pos (fresh (fds s.open_files)),
        open_at (fresh (fds s.open_files)) (record { minor = 0; off = 0 }) s,
      )
  unfolding open_device skeleton_open
  open_device_lem s one = rw one refl

  write_lem :
      (fd : ℕ) (f : File) (s : Client) (content : List ℕ)
      → let (ret, dev', f') = skeleton_write user s.device f content 70 in
        ret ≡ pos 70
        → write (pos fd) content (open_at fd f s)
          ≡ (pos 70, open_at fd f' (record s { device = dev' }))
  unfolding write
  write_lem fd f s content stored = rw (same_fd fd, stored, same_fd fd) refl

  read_lem :
      (fd : ℕ) (f : File) (s : Client)
      → let (ret, bytes, f') = skeleton_read user s.device f 70 in
        ret ≡ pos 70
        → read (pos fd) (open_at fd f s)
          ≡ (pos 70, open_at fd f' (record s { data_read = filled bytes s.data_read }))
  unfolding read
  read_lem fd f s got = rw (same_fd fd, got, same_fd fd) refl

  close_lem : (fd : ℕ) (f : File) (s : Client) → close (pos fd) (open_at fd f s) ≡ (tt, s)
  unfolding close
  close_lem fd f s = rw (same_fd fd) refl

  not_neg : (n : ℕ) → is_neg (pos n) ≡ false
  not_neg n = ground arith

  drop_all : (xs : List ℕ) (n : ℕ) → length xs ≡ n → drop n xs ≡ []
  drop_all [] n e = rw (← e) refl
  drop_all (x ∷ xs) n e = rw (← e) (drop_all xs (length xs) refl)

  filled-all : (bytes old : List ℕ) → length bytes ≡ 70 → length old ≡ 70 → filled bytes old ≡ bytes
  filled-all bytes old long same = rw (long, drop_all old 70 same) (append-nil bytes)

  -- On a device with an instance at least, whose buffers have their size, where the copies of all
  -- calls succeed, and whatever files the process has open and descriptors the kernel chooses: the
  -- program ends with 0 and reads back the 70 bytes that it wrote, though through another
  -- descriptor, which it closes; the descriptor of the first `open` stays open beside those from
  -- before.
  pub ex_character_oriented_reads_back :
      (s : Client) (content : List ℕ)
      → IsUaccess user
      → ((src : List ℕ) → (user.from_user src).1 ≡ 0)
      → ((src : List ℕ) → (user.to_user src).1 ≡ 0)
      → IsDevice s.device
      → leb (u32 s.device.instances) 0 ≡ false
      → 0 < length s.device.buffers
      → length content ≡ 70
      → length s.data_read ≡ 70
      → let (code, s') = ex_character_oriented content s in
        (code ≡ 0)
        × (s'.data_read ≡ content)
        × (fds s'.open_files ≡ fresh (fds s.open_files) ∷ fds s.open_files)
  unfolding ex_character_oriented
  ex_character_oriented_reads_back s content law from to h one there long blank =
      let f : File = record { minor = 0; off = 0 } in
      let dev = s.device in
      let back =
        read-write user dev f content law from to h there (omega (arith, long)) (omega arith) in
      let (stored, moved, n, same) = rw long at back in
      let (_, dev', f') = skeleton_write user dev f content 70 in
      let d = fresh (fds s.open_files) in
      let e = fresh (d ∷ fds s.open_files) in
      let s₁ : Client = record s { device = dev' } in
      let s₂ = open_at d f' s₁ in
      let kept : leb (u32 dev'.instances) 0 ≡ false = rw (write-instances dev f content 70) one in
      rw
        (
          open_device_lem s one,
          not_neg d,
          write_lem d f s content stored,
          open_device_lem s₂ kept,
          read_lem e f s₂ n,
        )
        (rw
          (close_lem e (skeleton_read user dev' f 70).2
            (record s₂ { data_read = filled (skeleton_read user dev' f 70).1 s.data_read }))
          (refl, rw same (filled-all content s.data_read long blank), refl))
