-- ===== src/Solutions/Children.antt =====
-- src/solutions/03_drivers/exercice06.1/skeleton.c: a platform driver that registers a device for
-- each child of its node and keeps them in a list. Calls are recorded, newest first, with their
-- answers. The children are numbered from 0.
pub mod LastOnly
use mse_ma_csel.Common.{
  ℕ, zero, suc, ◌+◌, ◌≤◌, ◌≡◌, refl, Bool, true, false, not, ◌&&◌, Option, none, some, List, [],
  ◌∷◌, ◌++◌, ltb, leb, ◌==◌, if◌then◌else◌, if_cases, arith,
}
use mse_ma_csel.Common.Int.{ℤ, pos, negsuc, is_zero}

pub data Call : Type 0 where
  devm_kzalloc : Bool → Call
  misc_register : ℕ → ℤ → Call
  device_create_file : ℕ → ℤ → Call
  misc_deregister : ℕ → Call

pub record Answers : Type 0 where
  pub devm_kzalloc : List Call → Bool
  pub misc_register : ℕ → List Call → ℤ
  pub device_create_file : ℕ → List Call → ℤ

-- The device's driver data: the list, `none` for NULL.
pub record Device : Type 0 where
  pub drvdata : Option (List ℕ)
  pub calls : List Call

-- `list_add_tail`
abbrev add_tail : ℕ → Option (List ℕ) → Option (List ℕ)
add_tail i none = none
add_tail i (some list) = some (list ++ i ∷ [])

-- The loop over `m` children from child `i` on. -12 is -ENOMEM.
unfoldable pub probe_children : Answers → (i m : ℕ) → Device → ℤ × Device
probe_children linux i zero d = (pos 0, d)
probe_children linux i (suc m) d =
    let got = linux.devm_kzalloc d.calls in
    let asked : Device = record d { calls = Call.devm_kzalloc got ∷ d.calls } in
    let ret = linux.misc_register i asked.calls in
    let registered : Device = record {
      drvdata = add_tail i d.drvdata;
      calls = Call.misc_register i ret ∷ asked.calls;
    } in
    let rest = probe_children linux (suc i) m registered in
    if not got then (negsuc 11, asked) else if is_zero ret then rest else (ret, registered)

-- `drv_probe` of a node with `n` children; `none` for no node.
unfoldable pub drv_probe : Answers → Option ℕ → Device → ℤ × Device
drv_probe linux none d = (pos 0, d)
drv_probe linux (some n) d =
    let got = linux.devm_kzalloc d.calls in
    let asked : Device = record d { calls = Call.devm_kzalloc got ∷ d.calls } in
    let rest = probe_children linux 0 n (record asked { drvdata = some [] }) in
    if got then rest else (negsuc 11, asked)

abbrev deregister_all : List ℕ → List Call → List Call
deregister_all [] cs = cs
deregister_all (i ∷ list) cs = deregister_all list (misc_deregister i ∷ cs)

-- `drv_remove`: `none` where it follows NULL as a list.
unfoldable pub drv_remove : Device → Option (List Call)
drv_remove d = elim d.drvdata [ none ↦ none | some list ↦ some (deregister_all list d.calls) ]

-- Whether a child's device is registered; `none` once it is registered twice, or given up while it
-- is not.
abbrev pub live_follow : ℕ → Call → Option Bool → Option Bool
live_follow id c none = none
live_follow id (Call.misc_register n ret) (some b) =
    if n == id && is_zero ret then (if b then none else some true) else some b
live_follow id (misc_deregister n) (some b) =
    if n == id then (if b then some false else none) else some b
live_follow id _ (some b) = some b

abbrev pub live : ℕ → List Call → Option Bool
live id [] = some false
live id (c ∷ cs) = live_follow id c (live id cs)

abbrev pub range : (j m : ℕ) → List ℕ
range j zero = []
range j (suc m) = j ∷ range (suc j) m

range-snoc : (j m : ℕ) → range j m ++ (j + m) ∷ [] ≡ range j (suc m)
range-snoc j zero = ground arith
range-snoc j (suc m) = ground (arith, range-snoc (suc j) m)

deregister_all-live :
    (id j m : ℕ) (cs : List Call)
    → live id cs ≡ some (leb j id && ltb id (j + m))
    → live id (deregister_all (range j m) cs) ≡ some false
deregister_all-live id j zero cs h = ground arith
deregister_all-live id j (suc m) cs h =
    deregister_all-live id (suc j) m (misc_deregister j ∷ cs) (ground (arith, h))

-- How many registrations were granted.
abbrev pub count : List Call → ℕ
count [] = 0
count (Call.misc_register n ret ∷ cs) = if is_zero ret then suc (count cs) else count cs
count (_ ∷ cs) = count cs

-- What a probe leaves that had `i` children registered and `m` before it: `more` of these.
record Probed (i m : ℕ) (r : ℤ × Device) : Type 0 where
  more : ℕ
  few : more ≤ m
  counted : count r.1.calls ≡ i + more
  first : (id : ℕ) → live id r.1.calls ≡ some (ltb id (i + more))
  listed : is_zero r.0 ≡ true → (more ≡ m) × (r.1.drvdata ≡ some (range 0 (i + m)))

-- One child more, before the rest of them.
suc-Probed : {i m : ℕ} {r : ℤ × Device} → Probed (suc i) m r → Probed i (suc m) r
suc-Probed {i} {m} {r} p = record {
  more = suc p.more;
  few = omega (arith, p.few);
  counted = omega (arith, p.counted);
  first = λ id. ground (arith, p.first id);
  listed = λ z. let (all, list) = p.listed z in (omega (arith, all), ground (arith, list));
}

probe_children-Probed :
    (linux : Answers) (i m : ℕ) (d : Device)
    → ((id : ℕ) → live id d.calls ≡ some (ltb id i))
    → d.drvdata ≡ some (range 0 i)
    → count d.calls ≡ i
    → Probed i m (probe_children linux i m d)
unfolding probe_children
probe_children-Probed linux i zero d h list c = record {
  more = 0;
  few = omega arith;
  counted = ground (arith, c);
  first = λ id. ground (arith, h id);
  listed = λ z. ground (arith, list);
}
probe_children-Probed linux i (suc m) d h list c =
    let got = linux.devm_kzalloc d.calls in
    let asked = Call.devm_kzalloc got ∷ d.calls in
    let ret = linux.misc_register i asked in
    let registered : Device = record {
      drvdata = add_tail i d.drvdata;
      calls = Call.misc_register i ret ∷ asked;
    } in
    if_cases (Probed i (suc m)) (not got)
      (λ refused. record {
        more = 0;
        few = omega arith;
        counted = ground (arith, c);
        first = λ id. ground (arith, h id);
        listed = λ z. ground arith;
      })
      (λ granted.
        if_cases (Probed i (suc m)) (is_zero ret)
          (λ done. suc-Probed (
            probe_children-Probed linux (suc i) m registered (λ id. ground (arith, h id))
              (ground (arith, list, range-snoc 0 i)) (ground (arith, c))))
          (λ failed. record {
            more = 0;
            few = omega arith;
            counted = ground (arith, c);
            first = λ id. ground (arith, h id);
            listed = λ z. ground arith;
          }))

abbrev pub fresh : Device
fresh = record { drvdata = none; calls = [] }

abbrev pub gone : ℕ → Option (List Call) → Option Bool
gone id none = none
gone id (some cs) = live id cs

-- A probe of a node with `n` children, from a device without data: registered are just the first
-- children, as many as registrations were granted, each once, whatever calls are refused. If it
-- returns 0, these are all of them, and the removal gives each up once and leaves none registered.
-- If it fails, they stay registered.
pub drv_probe_registers :
    (linux : Answers) (n id : ℕ)
    → let (ret, d) = drv_probe linux (some n) fresh in
      (live id d.calls ≡ some (ltb id (count d.calls)))
      × (if is_zero ret
          then ((count d.calls ≡ n) × (gone id (drv_remove d) ≡ some false))
          else (count d.calls ≤ n))
unfolding drv_probe drv_remove
drv_probe_registers linux n id =
    let asked = Call.devm_kzalloc (linux.devm_kzalloc []) ∷ [] in
    let p =
      probe_children-Probed linux 0 n (record { drvdata = some []; calls = asked })
        (λ id. ground arith) refl refl in
    let ended =
      deregister_all-live id 0 n
        (probe_children linux 0 n (record { drvdata = some []; calls = asked })).1.calls in
    ground (arith, p.first id, p.counted, p.few, p.listed, ended)
