-- ===== src/Solutions/Children/LastOnly.antt =====
-- src/solutions/03_drivers/sample06.3/skeleton.c: the driver for the children of a node that keeps
-- just the last of its devices as its data, and gives each an attribute.
use mse_ma_csel.Common.{
  ℕ, zero, suc, ◌+◌, ◌≤◌, ◌≡◌, refl, ap, ◌∙◌, true, not, Option, none, some, List, [], ◌∷◌, ltb,
  ◌==◌, if_cases, if◌then◌else◌, arith,
}
use mse_ma_csel.Common.Int.{ℤ, pos, negsuc, is_zero}
use mse_ma_csel.Solutions.Children.{Call, misc_deregister, Answers, live, count, gone}

-- The device's driver data: a child, `none` for NULL.
pub record Device : Type 0 where
  pub drvdata : Option ℕ
  pub calls : List Call

-- The loop over `m` children from child `i` on.
unfoldable pub probe_children : Answers → (i m : ℕ) → Device → ℤ × Device
probe_children linux i zero d = (pos 0, d)
probe_children linux i (suc m) d =
    let got = linux.devm_kzalloc d.calls in
    let asked : Device = record d { calls = Call.devm_kzalloc got ∷ d.calls } in
    let ret = linux.misc_register i asked.calls in
    let registered : Device = record {
      drvdata = some i;
      calls = Call.misc_register i ret ∷ asked.calls;
    } in
    let ret' = linux.device_create_file i registered.calls in
    let created : Device = record registered {
      calls = Call.device_create_file i ret' ∷ registered.calls;
    } in
    let rest = probe_children linux (suc i) m created in
    if not got
    then (negsuc 11, asked)
    else if not (is_zero ret)
    then (ret, registered)
    else if is_zero ret'
    then rest
    else (ret', created)

-- `drv_probe` of a node with `n` children; `none` for no node.
unfoldable pub drv_probe : Answers → Option ℕ → Device → ℤ × Device
drv_probe linux none d = (pos 0, d)
drv_probe linux (some n) d = probe_children linux 0 n d

-- `drv_remove`: `none` where it gives up a device at NULL.
unfoldable pub drv_remove : Device → Option (List Call)
drv_remove d = elim d.drvdata [ none ↦ none | some i ↦ some (misc_deregister i ∷ d.calls) ]

abbrev pub fresh : Device
fresh = record { drvdata = none; calls = [] }

abbrev last_of : ℕ → Option ℕ
last_of zero = none
last_of (suc i) = some i

record Probed (i m : ℕ) (r : ℤ × Device) : Type 0 where
  first : (id : ℕ) → live id r.1.calls ≡ some (ltb id (count r.1.calls))
  few : count r.1.calls ≤ i + m
  all : is_zero r.0 ≡ true → (count r.1.calls ≡ i + m) × (r.1.drvdata ≡ last_of (i + m))

suc-Probed : {i m : ℕ} {r : ℤ × Device} → Probed (suc i) m r → Probed i (suc m) r
suc-Probed {i} {m} {r} p = record {
  first = p.first;
  few = omega (arith, p.few);
  all = λ z. let (n, last) = p.all z in (omega (arith, n), last ∙ ap last_of (omega arith));
}

probe_children-Probed :
    (linux : Answers) (i m : ℕ) (d : Device)
    → ((id : ℕ) → live id d.calls ≡ some (ltb id i))
    → d.drvdata ≡ last_of i
    → count d.calls ≡ i
    → Probed i m (probe_children linux i m d)
unfolding probe_children
probe_children-Probed linux i zero d h last c = record {
  first = λ id. ground (arith, h id);
  few = omega (arith, c);
  all = λ z. (omega (arith, c), last ∙ ap last_of (omega arith));
}
probe_children-Probed linux i (suc m) d h last c =
    let got = linux.devm_kzalloc d.calls in
    let asked = Call.devm_kzalloc got ∷ d.calls in
    let ret = linux.misc_register i asked in
    let registered = Call.misc_register i ret ∷ asked in
    let ret' = linux.device_create_file i registered in
    let created : Device = record {
      drvdata = some i;
      calls = Call.device_create_file i ret' ∷ registered;
    } in
    if_cases (Probed i (suc m)) (not got)
      (λ refused. record {
        first = λ id. ground (arith, h id);
        few = ground (arith, c);
        all = λ z. ground arith;
      })
      (λ granted.
        if_cases (Probed i (suc m)) (not (is_zero ret))
          (λ failed. record {
            first = λ id. ground (arith, h id);
            few = ground (arith, c);
            all = λ z. ground arith;
          })
          (λ done.
            if_cases (Probed i (suc m)) (is_zero ret')
              (λ done'. suc-Probed (
                probe_children-Probed linux (suc i) m created (λ id. ground (arith, h id)) refl
                  (ground (arith, c))))
              (λ failed. record {
                first = λ id. ground (arith, h id);
                few = ground (arith, c);
                all = λ z. ground arith;
              })))

-- A probe of a node with `n` children, from a device without data, whatever calls are refused: if
-- it returns 0, the removal gives up just the last child's device, so that those of the others stay
-- registered, and follows NULL if there was no child. If it fails, the first children's devices
-- stay registered, as many as registrations were granted.
pub drv_remove_last :
    (linux : Answers) (n id : ℕ)
    → let (ret, d) = drv_probe linux (some n) fresh in
      (live id d.calls ≡ some (ltb id (count d.calls)))
      × (if is_zero ret
          then ((count d.calls ≡ n)
              × (gone id (drv_remove d) ≡ (if n == 0 then none else some (ltb (suc id) n))))
          else (count d.calls ≤ n))
unfolding drv_probe drv_remove
drv_remove_last linux n id =
    let p = probe_children-Probed linux 0 n fresh (λ id. ground arith) refl refl in
    ground (arith, p.first id, p.few, p.all)
