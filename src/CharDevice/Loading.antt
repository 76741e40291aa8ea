-- ===== src/CharDevice/Loading.antt =====
-- Loading and unloading of src/02-driver/character-oriented/skeleton.c.
use mse_ma_csel.Common.{
  ℕ, zero, suc, ◌+◌, Bool, true, false, not, ◌≡◌, ◌≢◌, Option, none, some, List, [], ◌∷◌, Proc,
  if◌then◌else◌, ◌>>=◌, ◌>>◌, pure, gets, Bool-cases, inl, inr, arith,
}
use mse_ma_csel.Common.Int.{ℤ, pos, is_zero}

-- The calls of the kernel, newest first, with their answers.
pub data Call : Type 0 where
  alloc_chrdev_region cdev_add : ℤ → Call
  cdev_init cdev_del unregister_chrdev_region : Call
  kzalloc kfree : Call

pub record Answers : Type 0 where
  pub alloc_chrdev_region : List Call → ℤ
  pub cdev_add : List Call → ℤ

abbrev pub Loader : Type 0 → Type 0
Loader = Proc (List Call)

abbrev emit : Call → Loader (Unit {0})
emit c cs = (tt, c ∷ cs)

-- A call for each of the `n` buffers.
abbrev repeat : ℕ → Call → Loader (Unit {0})
repeat zero c cs = (tt, cs)
repeat (suc n) c cs = repeat n c (c ∷ cs)

-- The array of buffers, and `n` buffers.
unfoldable pub skeleton_init : Answers → ℕ → Loader ℤ
skeleton_init os n = do
  ret ← gets os.alloc_chrdev_region
  emit (Call.alloc_chrdev_region ret)
  if not (is_zero ret) then pure ret else (do
    emit cdev_init
    ret ← gets os.cdev_add
    emit (Call.cdev_add ret)
    if not (is_zero ret) then pure ret else (do emit kzalloc; repeat n kzalloc; pure ret))

unfoldable pub skeleton_exit : ℕ → Loader (Unit {0})
skeleton_exit n = do emit cdev_del; emit unregister_chrdev_region; repeat n kfree; emit kfree

-- What the driver holds.
pub record Held : Type 0 where
  pub region : Bool
  pub device : Bool
  pub blocks : ℕ

abbrev pub nothing : Held
nothing = record { region = false; device = false; blocks = 0 }

abbrev less : ℕ → Held → Option Held
less zero h = none
less (suc n) h = some (record h { blocks = n })

abbrev follow : Call → Held → Option Held
follow (alloc_chrdev_region ret) h = some (record h { region = is_zero ret })
follow (cdev_add ret) h = if h.region then some (record h { device = is_zero ret }) else none
follow cdev_init h = some h
follow cdev_del h = if h.device then some (record h { device = false }) else none
follow unregister_chrdev_region h = if h.region then some (record h { region = false }) else none
follow kzalloc h = some (record h { blocks = suc h.blocks })
follow kfree h = less h.blocks h

abbrev then_follow : Call → Option Held → Option Held
then_follow c none = none
then_follow c (some h) = follow c h

-- `none` once something is released that is not held.
abbrev pub held : List Call → Option Held
held [] = some nothing
held (c ∷ cs) = then_follow c (held cs)

repeat-kzalloc :
    (n m : ℕ) (cs : List Call) (h : Held)
    → held cs ≡ some h
    → h.blocks ≡ m
    → held (repeat n kzalloc cs).1 ≡ some (record h { blocks = n + m })
repeat-kzalloc zero m cs h e b = ground arith
repeat-kzalloc (suc n) m cs h e b =
    ground (arith, repeat-kzalloc n (suc m) (kzalloc ∷ cs) (record h { blocks = suc m }))

repeat-kfree :
    (n : ℕ) (cs : List Call) (h : Held)
    → held cs ≡ some (record h { blocks = suc n })
    → held (repeat n kfree cs).1 ≡ some (record h { blocks = 1 })
repeat-kfree zero cs h e = e
repeat-kfree (suc n) cs h e = ground (arith, repeat-kfree n (kfree ∷ cs) h)

skeleton_exit-releases :
    (n : ℕ) (cs : List Call)
    → held cs ≡ some (record { region = true; device = true; blocks = suc n })
    → held (skeleton_exit n cs).1 ≡ some nothing
unfolding skeleton_exit
skeleton_exit-releases n cs e =
    let cs' = unregister_chrdev_region ∷ cdev_del ∷ cs in
    let h : Held = record { region = false; device = false; blocks = suc n } in
    ground (arith, e, repeat-kfree n cs' h)

skeleton_init-holds :
    (os : Answers) (n : ℕ)
    → (skeleton_init os n []).0 ≡ pos 0
    → held (skeleton_init os n []).1
      ≡ some (record { region = true; device = true; blocks = suc n })
unfolding skeleton_init
skeleton_init-holds os n done =
    let a = os.alloc_chrdev_region [] in
    let cs = cdev_init ∷ Call.alloc_chrdev_region a ∷ [] in
    let d = os.cdev_add cs in
    let h : Held = record { region = true; device = true; blocks = 1 } in
    elim (Bool-cases (is_zero a)) [
      | inl za ↦ elim (Bool-cases (is_zero d)) [
        | inl zd ↦ ground (arith, za, zd, repeat-kzalloc n 1 (kzalloc ∷ Call.cdev_add d ∷ cs) h)
        | inr nd ↦ ground (arith, za, nd)
      ]
      | inr na ↦ ground (arith, na)
    ]

-- For any number of buffers, a load that succeeds and an unload give back the numbers, the device
-- and every buffer, each once.
pub skeleton_exit_clean :
    (os : Answers) (n : ℕ)
    → (skeleton_init os n []).0 ≡ pos 0
    → held (skeleton_exit n (skeleton_init os n []).1).1 ≡ some nothing
skeleton_exit_clean os n done =
    skeleton_exit-releases n (skeleton_init os n []).1 (skeleton_init-holds os n done)

-- When the device numbers are reserved and `cdev_add` fails, the load reports an error and keeps
-- the device numbers.
pub skeleton_init_leaks :
    (os : Answers) (n : ℕ)
    → os.alloc_chrdev_region [] ≡ pos 0
    → ((cs : List Call) → os.cdev_add cs ≢ pos 0)
    → let (ret, cs) = skeleton_init os n [] in
      (ret ≢ pos 0) × (held cs ≡ some (record nothing { region = true }))
unfolding skeleton_init
skeleton_init_leaks os n reserved fails =
    ground (arith, fails (cdev_init ∷ Call.alloc_chrdev_region (pos 0) ∷ []))
