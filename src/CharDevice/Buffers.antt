-- ===== src/CharDevice/Buffers.antt =====
-- The buffers keep their size, whatever is written.
use Prim.Native.Nat.{min}
use mse_ma_csel.Common.{
  ℕ, zero, suc, ◌+◌, ◌-◌, ◌≤◌, ◌<◌, ◌≡◌, ◌≢◌, refl, ap, List, [], ◌∷◌, ◌++◌, take, drop, length,
  length-append, length-take, length-drop, get_or, arith,
}
use mse_ma_csel.CharDevice.{
  buffer_size, Device, File, Uaccess, IsUaccess, set, store, skeleton_write,
}

-- Every buffer has its 300 bytes.
abbrev pub AllSized : List (List ℕ) → Type 0
AllSized [] = Unit {0}
AllSized (b ∷ bs) = (length b ≡ buffer_size) × AllSized bs

pub length-store :
    (buf bytes : List ℕ) (off : ℕ)
    → off + length bytes ≤ length buf
    → length (store buf off bytes) ≡ length buf
length-store buf bytes off h = omega (
  arith,
  length-append (take off buf) (bytes ++ drop (off + length bytes) buf),
  length-append bytes (drop (off + length bytes) buf),
  length-take off buf,
  length-drop (off + length bytes) buf,
)

pub AllSized-get :
    (bs : List (List ℕ)) (i : ℕ)
    → AllSized bs
    → i < length bs
    → length (get_or bs i []) ≡ buffer_size
AllSized-get [] i h lt = absurd (omega arith)
AllSized-get (b ∷ bs) zero h lt = h.0
AllSized-get (b ∷ bs) (suc i) h lt = AllSized-get bs i h.1 (omega arith)

AllSized-set :
    (bs : List (List ℕ)) (i : ℕ) (b : List ℕ)
    → AllSized bs
    → length b ≡ buffer_size
    → AllSized (set bs i b)
AllSized-set [] i b h l = tt
AllSized-set (x ∷ bs) zero b h l = (l, h.1)
AllSized-set (x ∷ bs) (suc i) b h l = (h.0, AllSized-set bs i b h.1 l)

pub length-set {ℓ} : {A : Type ℓ} (xs : List A) (i : ℕ) (v : A) → length (set xs i v) ≡ length xs
length-set [] i v = refl
length-set (x ∷ xs) zero v = refl
length-set (x ∷ xs) (suc i) v = ap suc (length-set xs i v)

pub get-set_self {ℓ} :
    {A : Type ℓ} (xs : List A) (i : ℕ) (v d : A) → i < length xs → get_or (set xs i v) i d ≡ v
get-set_self [] i v d h = absurd (omega arith)
get-set_self (x ∷ xs) zero v d h = refl
get-set_self (x ∷ xs) (suc i) v d h = get-set_self xs i v d (omega arith)

pub get-set_ne {ℓ} :
    {A : Type ℓ} (xs : List A) (i j : ℕ) (v d : A) → i ≢ j → get_or (set xs i v) j d ≡ get_or xs j d
get-set_ne [] i j v d h = refl
get-set_ne (x ∷ xs) zero zero v d h = absurd (h refl)
get-set_ne (x ∷ xs) zero (suc j) v d h = refl
get-set_ne (x ∷ xs) (suc i) zero v d h = refl
get-set_ne (x ∷ xs) (suc i) (suc j) v d h = get-set_ne xs i j v d (λ e. h (ap suc e))

-- A device whose buffers all have their size.
pub record IsDevice (dev : Device) : Type 0 where
  pub sized : AllSized dev.buffers

-- On a device whose buffers have their size, and a file opened on one of them, a write of any
-- length at any position, also one whose copy fails, keeps the number of buffers and the size of
-- each: no byte is stored outside its buffer.
pub skeleton_write-IsDevice :
    (user : Uaccess) (dev : Device) (f : File) (buf : List ℕ) (count : ℕ)
    → IsUaccess user
    → IsDevice dev
    → f.minor < length dev.buffers
    → let (_, dev', _) = skeleton_write user dev f buf count in
      IsDevice dev' × (length dev'.buffers ≡ length dev.buffers)
unfolding skeleton_write
skeleton_write-IsDevice user dev f buf count law h open_ =
    let len = min (buffer_size - f.off) count in
    let bytes = (user.from_user (take len buf)).0 in
    let old = get_or dev.buffers f.minor [] in
    ground (
      arith,
      AllSized-get dev.buffers f.minor h.sized open_,
      law.from_length (take len buf),
      length-take len buf,
      length-store old bytes f.off,
      AllSized-set dev.buffers f.minor (store old f.off bytes) h.sized,
      length-set dev.buffers f.minor (store old f.off bytes),
    )

-- A write leaves the buffers of the other minor numbers as they are.
pub skeleton_write-others :
    (user : Uaccess) (dev : Device) (f : File) (buf : List ℕ) (count other : ℕ)
    → f.minor ≢ other
    → get_or (skeleton_write user dev f buf count).1.buffers other [] ≡ get_or dev.buffers other []
unfolding skeleton_write
skeleton_write-others user dev f buf count other ne =
    let len = min (buffer_size - f.off) count in
    let bytes = (user.from_user (take len buf)).0 in
    ground (
      arith,
      get-set_ne dev.buffers f.minor other (store (get_or dev.buffers f.minor []) f.off bytes) []
          ne,
    )
