-- ===== src/CharDevice/Contents.antt =====
-- What was written is read.
use Prim.Native.Nat.{min}
use mse_ma_csel.Common.{
  ℕ, zero, suc, ◌+◌, ◌-◌, ◌≤◌, ◌<◌, ◌≡◌, refl, ap, ◌∙◌, List, [], ◌∷◌, ◌++◌, take, drop, length,
  length-take, get_or, arith,
}
use mse_ma_csel.Common.Int.{pos}
use mse_ma_csel.CharDevice.{
  buffer_size, Device, File, Uaccess, IsUaccess, store, skeleton_read, skeleton_write,
}
use mse_ma_csel.CharDevice.Buffers.{IsDevice, AllSized-get, get-set_self}

module _ {ℓ} {A : Type ℓ} where
  drop-append : (xs ys : List A) (n : ℕ) → n ≡ length xs → drop n (xs ++ ys) ≡ ys
  drop-append [] ys zero h = refl
  drop-append [] ys (suc n) h = absurd (omega arith)
  drop-append (x ∷ xs) ys zero h = absurd (omega arith)
  drop-append (x ∷ xs) ys (suc n) h = drop-append xs ys n (omega arith)

  take-append : (xs ys : List A) (n : ℕ) → n ≡ length xs → take n (xs ++ ys) ≡ xs
  take-append [] ys zero h = refl
  take-append [] ys (suc n) h = absurd (omega arith)
  take-append (x ∷ xs) ys zero h = absurd (omega arith)
  take-append (x ∷ xs) ys (suc n) h = ap (◌∷◌ x) (take-append xs ys n (omega arith))

  take_all : (xs : List A) (n : ℕ) → length xs ≤ n → take n xs ≡ xs
  take_all [] zero h = refl
  take_all [] (suc n) h = refl
  take_all (x ∷ xs) zero h = absurd (omega arith)
  take_all (x ∷ xs) (suc n) h = ap (◌∷◌ x) (take_all xs n (omega arith))

-- The stored bytes stand where they were stored.
take-drop-store :
    (buf bytes : List ℕ) (off : ℕ)
    → off ≤ length buf
    → take (length bytes) (drop off (store buf off bytes)) ≡ bytes
take-drop-store buf bytes off h =
    let rest = drop (off + length bytes) buf in
    ap (take (length bytes))
      (drop-append (take off buf) (bytes ++ rest) off (omega (arith, length-take off buf)))
    ∙ take-append bytes rest (length bytes) refl

-- On a device whose buffers have their size, and where the copies of both calls succeed: bytes
-- that fit at a position inside the buffer are written in full, the position moves past them, and
-- a read of as many bytes from the old position, through the same minor number, returns them.
pub read-write :
    (user : Uaccess) (dev : Device) (f : File) (buf : List ℕ)
    → IsUaccess user
    → ((src : List ℕ) → (user.from_user src).1 ≡ 0)
    → ((src : List ℕ) → (user.to_user src).1 ≡ 0)
    → IsDevice dev
    → f.minor < length dev.buffers
    → f.off + length buf ≤ buffer_size
    → f.off < buffer_size
    → let (ret, dev', f') = skeleton_write user dev f buf (length buf) in
      let (n, bytes, f'') = skeleton_read user dev' f (length buf) in
      (ret ≡ pos (length buf))
      × (f'.off ≡ f.off + length buf)
      × (n ≡ pos (length buf))
      × (bytes ≡ buf)
unfolding skeleton_write skeleton_read
read-write user dev f buf law from to h opened fits room =
    let old = get_or dev.buffers f.minor [] in
    let new = store old f.off buf in
    let all = take_all buf (min (buffer_size - f.off) (length buf)) (omega arith) in
    let back = get-set_self dev.buffers f.minor new [] opened in
    let got =
      take-drop-store old buf f.off
        (omega (arith, AllSized-get dev.buffers f.minor h.sized opened)) in
    ground (arith, all, from buf, law.from_all buf, back, got, to buf, law.to_all buf)
