-- ===== src/SysfsDevice/Balance.antt =====
-- What a load and an unload of the module leave.
use mse_ma_csel.Common.{
  ◌≡◌, Bool, true, false, ◌&&◌, Option, none, some, List, [], ◌∷◌, if◌then◌else◌, arith,
}
use mse_ma_csel.Common.Int.{pos}
use mse_ma_csel.SysfsDevice.{
  Call, class_create, device_create, device_create_file, device_remove_file, device_destroy,
  class_destroy, Answers, skeleton_init, skeleton_exit,
}

-- The class, the device and the file that are there.
pub record Held : Type 0 where
  pub class : Bool
  pub device : Bool
  pub file : Bool

abbrev pub nothing : Held
nothing = record { class = false; device = false; file = false }

-- A device is made in a class that is there, and a file for a device that is there.
abbrev follow : Call → Option Held → Option Held
follow c none = none
follow (class_create ok) (some h) = some (record h { class = ok })
follow (device_create ok) (some h) = if h.class then some (record h { device = ok }) else none
follow (device_create_file ok) (some h) = if h.device then some (record h { file = ok }) else none
follow device_remove_file (some h) = if h.file then some (record h { file = false }) else none
follow device_destroy (some h) = if h.device then some (record h { device = false }) else none
follow class_destroy (some h) = if h.class then some (record h { class = false }) else none

abbrev pub held : List Call → Option Held
held [] = some nothing
held (c ∷ cs) = follow c (held cs)

-- All three were granted.
abbrev pub all_granted : List Call → Bool
all_granted [] = true
all_granted (class_create ok ∷ cs) = ok && all_granted cs
all_granted (device_create ok ∷ cs) = ok && all_granted cs
all_granted (device_create_file ok ∷ cs) = ok && all_granted cs
all_granted (_ ∷ cs) = all_granted cs

-- The load always reports success; a load and an unload leave nothing if the class, the device and
-- the file were granted, and if one was not, something is used or given back that is not there.
pub skeleton_exit_balance :
    (linux : Answers)
    → let (ret, cs) = skeleton_init linux [] in
      let cs' = (skeleton_exit cs).1 in
      (ret ≡ pos 0) × (held cs' ≡ (if all_granted cs' then some nothing else none))
unfolding skeleton_init skeleton_exit
skeleton_exit_balance linux = ground arith
