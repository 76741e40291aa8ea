-- ===== src/Multiprocessing/Cgroups.antt =====
-- src/04-multiprocessing/cgroups.c: fifty blocks that are allocated, touched and freed, under
-- whatever limit `malloc` meets. The calls are recorded, newest first; blocks are known by their
-- index.
use mse_ma_csel.Common.{
  ℕ, zero, suc, ◌+◌, ◌≡◌, refl, Bool, true, false, not, ◌&&◌, Option, none, some, List, [], ◌∷◌,
  Proc, ltb, leb, ◌==◌, if◌then◌else◌, ◌>>=◌, ◌>>◌, pure, gets, skip, Bool-cases, inl, inr, arith,
}

pub data Call : Type 0 where
  malloc : ℕ → Bool → Call
  memset free : ℕ → Call

abbrev pub num_blocks : ℕ
num_blocks = 50

abbrev emit : Call → Proc (List Call) (Unit {0})
emit c cs = (tt, c ∷ cs)

-- `for (j = 0; j < i; j++) free(blocks[j]);`, from `j` on with `n` left.
abbrev free_blocks : ℕ → ℕ → Proc (List Call) (Unit {0})
free_blocks zero j = skip
free_blocks (suc n) j = do emit (free j); free_blocks n (j + 1)

-- The loop of `main` from block `i` on with `n` left; `granted` tells whether `malloc` finds room.
-- The result is the exit code.
abbrev allocate : (List Call → Bool) → ℕ → ℕ → Proc (List Call) ℕ
allocate granted zero i = do free_blocks i 0; pure 0
allocate granted (suc n) i = do
  let rest = allocate granted n (i + 1)
  room ← gets granted
  emit (malloc i room)
  if room then (do emit (memset i); rest) else (do free_blocks i 0; pure 1)

unfoldable pub main : (List Call → Bool) → Proc (List Call) ℕ
main granted = allocate granted num_blocks 0

-- Whether block `k` is there; `none` once it is freed or touched while it is not.
abbrev follow : ℕ → Call → Option Bool → Option Bool
follow k c none = none
follow k (malloc i room) (some there) = if i == k && room then some true else some there
follow k (memset i) (some there) = if i == k && not there then none else some there
follow k (free i) (some there) = if i == k then (if there then some false else none) else some there

abbrev pub live : ℕ → List Call → Option Bool
live k [] = some false
live k (c ∷ cs) = follow k c (live k cs)

-- Every `malloc` found room.
abbrev pub all_granted : List Call → Bool
all_granted [] = true
all_granted (malloc i room ∷ cs) = room && all_granted cs
all_granted (_ ∷ cs) = all_granted cs

free_blocks-live :
    (k n j i : ℕ) (cs : List Call)
    → n + j ≡ i
    → live k cs ≡ some (leb j k && ltb k i)
    → (live k (free_blocks n j cs).1 ≡ some false)
      × (all_granted (free_blocks n j cs).1 ≡ all_granted cs)
free_blocks-live k zero j i cs e h = ground arith
free_blocks-live k (suc n) j i cs e h =
    let next : live k (free j ∷ cs) ≡ some (leb (j + 1) k && ltb k i) = ground (arith, h) in
    free_blocks-live k n (j + 1) i (free j ∷ cs) (omega (arith, e)) next

allocate-live :
    (granted : List Call → Bool) (k n i : ℕ) (cs : List Call)
    → live k cs ≡ some (ltb k i)
    → all_granted cs ≡ true
    → let (code, cs') = allocate granted n i cs in
      (live k cs' ≡ some false) × (code ≡ (if all_granted cs' then 0 else 1))
allocate-live granted k zero i cs h g =
    let freed = free_blocks-live k i 0 i cs (omega arith) (ground (arith, h)) in
    (freed.0, rw (freed.1, g) refl)
allocate-live granted k (suc n) i cs h g = elim (Bool-cases (granted cs)) [
  | inl room ↦
      let next = memset i ∷ malloc i true ∷ cs in
      rw room (allocate-live granted k n (i + 1) next (ground (arith, h)) (ground (arith, g)))
  | inr full ↦
      let freed =
        free_blocks-live k i 0 i (malloc i false ∷ cs) (omega arith) (ground (arith, h)) in
      rw full (freed.0, rw freed.1 refl)
]

-- Whatever `malloc` grants, no block is touched or freed that is not there, none is left at the
-- end, and the exit code is 0 if all blocks were granted and 1 if one was not.
pub cgroups_clean :
    (granted : List Call → Bool) (k : ℕ)
    → let (code, cs) = main granted [] in
      (live k cs ≡ some false) × (code ≡ (if all_granted cs then 0 else 1))
unfolding main
cgroups_clean granted k = allocate-live granted k num_blocks 0 [] (ground arith) refl
