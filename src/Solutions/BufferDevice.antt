-- ===== src/Solutions/BufferDevice.antt =====
-- src/solutions/03_drivers/exercice02/skeleton.c: a character device with one buffer. `size_t`,
-- `loff_t` and pointers are numbers modulo 2 ^ 64; the position is one of the buffer or, past
-- either end, outside it.
pub mod Loading
use mse_ma_csel.Common.{
  ℕ, ◌+◌, ◌-◌, ◌%◌, ◌^◌, ◌≤◌, ◌<◌, ◌≡◌, Bool, true, false, List, [], take, drop, ltb, leb, ◌==◌,
  if◌then◌else◌, arith,
}
use mse_ma_csel.Common.Int.{ℤ, pos, negsuc}
use mse_ma_csel.CharDevice.{set, store}

-- `BUFFER_SZ`
abbrev pub buffer_sz : ℕ
buffer_sz = 10000

-- `s_buffer`, the position of the open file, and whether a byte outside the buffer was written.
pub record State : Type 0 where
  pub s_buffer : List ℕ
  pub off : ℕ
  pub outside : Bool

-- `copy_from_user` of so many bytes: those that arrive, and how many did not.
pub record Uaccess : Type 0 where
  pub from_user : List ℕ → ℕ → List ℕ × ℕ
  pub to_user : List ℕ → ℕ → ℕ

-- `BUFFER_SZ - *off`, as the unsigned number that it is compared as.
abbrev pub remaining : ℕ → ℕ
remaining off = (buffer_sz + (2 ^ 64 - off)) % 2 ^ 64

-- `-EIO` as a `size_t`.
abbrev pub eio : ℕ
eio = 2 ^ 64 - 5

-- `s_buffer[i] = 0;`
abbrev pub put_zero : ℕ → State → State
put_zero i s =
    if ltb i buffer_sz
    then record s { s_buffer = set s.s_buffer i 0 }
    else record s { outside = true }

-- `-EFAULT` is -14.
module _ (user : Uaccess) where
  -- The result, the bytes that go to the caller, and the position behind them.
  unfoldable pub skeleton_read : ℕ → State → ℤ × List ℕ × State
  skeleton_read count s =
      let len = if ltb (remaining s.off) count then remaining s.off else count in
      let bytes = take len (drop s.off s.s_buffer) in
      let s' : State = record s { off = (s.off + len) % 2 ^ 64 } in
      if user.to_user bytes len == 0 then (pos len, bytes, s') else (negsuc 13, bytes, s')

  -- From `if (count > 0)` on, with `count` as it is there.
  unfoldable pub write_count : List ℕ → ℕ → State → ℤ × State
  write_count buf count s =
      if count == 0
      then (pos 0, s)
      else let ended =
          put_zero ((s.off + count) % 2 ^ 64) (record s { off = (s.off + count) % 2 ^ 64 }) in
        let (bytes, missing) = user.from_user buf count in
        let s' : State = record ended { s_buffer = store ended.s_buffer s.off bytes } in
        if missing == 0 then (pos count, s') else (negsuc 13, s')

  unfoldable pub skeleton_write : List ℕ → ℕ → State → ℤ × State
  skeleton_write buf count s =
      write_count buf (if leb (remaining s.off) count then eio else count) s

  -- A write that does not fit is meant to be refused with -EIO. As `count` has no sign, it goes on:
  -- where a copy of almost 2 ^ 64 bytes is refused, the write returns -EFAULT, the position goes
  -- five back, and a zero is written there, which from a position below five is outside the buffer.
  pub skeleton_write_too_much :
      (buf : List ℕ) (count : ℕ) (s : State)
      → s.off ≤ buffer_sz
      → buffer_sz ≤ s.off + count
      → (user.from_user buf eio).0 ≡ []
      → ((user.from_user buf eio).1 == 0) ≡ false
      → s.outside ≡ false
      → let (ret, s') = skeleton_write buf count s in
        (ret ≡ negsuc 13) × (s'.off ≡ (s.off + eio) % 2 ^ 64) × (s'.outside ≡ ltb s.off 5)
  unfolding skeleton_write write_count
  skeleton_write_too_much buf count s inside much none_copied refused clean = ground arith

  -- A write that fits, of one byte at least and all copied, returns the count, moves the position
  -- past the bytes and touches nothing outside the buffer, also with the zero that it puts after
  -- them.
  pub skeleton_write_fits :
      (buf : List ℕ) (count : ℕ) (s : State)
      → s.off + count < buffer_sz
      → 0 < count
      → (user.from_user buf count).1 ≡ 0
      → let (ret, s') = skeleton_write buf count s in
        (ret ≡ pos count) × (s'.off ≡ s.off + count) × (s'.outside ≡ s.outside)
  unfolding skeleton_write write_count
  skeleton_write_fits buf count s fits some_bytes all = ground arith
