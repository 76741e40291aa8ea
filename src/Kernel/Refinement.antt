-- ===== src/Kernel/Refinement.antt =====
-- The module keeps its promise: every use of its files and every round of its thread is a request
-- of Kernel/Spec.
use mse_ma_csel.Common.{
  ℕ, ◌/◌, ◌<◌, ◌≡◌, refl, Option, none, some, List, [], ◌∷◌, Option-cases, inl, inr, arith,
}
use mse_ma_csel.Common.Text.{Bytes, Format, IsFaithful}
use mse_ma_csel.Kernel.State.{
  Linux, Kernel, Call, temp_lock, regulator_lock, sysfs_lock, mutex_lock, mutex_unlock,
}
use mse_ma_csel.Kernel.Temp.{to_temperature, read_temp}
use mse_ma_csel.Kernel.Callbacks.{
  cb_get_temperature, cb_get_mode, cb_set_mode, cb_get_period, cb_set_period,
  regulator_get_temperature,
}
use mse_ma_csel.Kernel.Sysfs.{
  temperature_show, mode_show, mode_store, period_status_show, period_set_store,
}
use mse_ma_csel.Kernel.Regulator.{
  auto_period, apply_auto, read_mode as look_mode, process_auto_mode, regulator_round,
}
use mse_ma_csel.Kernel.Regulator.Invariant.{regulator_round-IsRegulated}
use mse_ma_csel.Kernel.Entries.{
  Entry, read_temperature, read_mode, read_period_status, round, write_mode, write_period_set,
  enter,
}
use mse_ma_csel.Kernel.Spec.{Control, control, IsUp, perform, reply, request}

module _ (linux : Linux) (text : Format) where
  -- The text that a reader of a file gets.
  unfoldable pub told : Entry → Kernel → Option Bytes
  told read_temperature k = some (temperature_show linux text k).0
  told read_mode k = some (mode_show linux text k).0
  told read_period_status k = some (period_status_show linux text k).0
  told round k = none
  told (write_mode buf count) k = none
  told (write_period_set buf count) k = none

  -- Entry by entry, for some value that the register shows: the reader is told what is promised,
  -- and the mode and the period are as promised at the end.
  abbrev pub Behaves : List Entry → Kernel → Control → Type 0
  Behaves [] k c = control k ≡ c
  Behaves (e ∷ es) k c =
      (cs : List Call) × (told e k ≡ reply text (request text (linux.ioread32 cs) e) c)
      × Behaves es (enter linux text e k) (perform (request text (linux.ioread32 cs) e) c)

  -- One entry.
  abbrev pub Answers : Entry → Kernel → Type 0
  Answers e k =
      (cs : List Call) × (told e k ≡ reply text (request text (linux.ioread32 cs) e) (control k))
      × (control (enter linux text e k) ≡ perform (request text (linux.ioread32 cs) e) (control k))
      × IsUp (enter linux text e k)

  module _ (k : Kernel) (up : IsUp k) where
    temperature-Answers : Answers read_temperature k
    unfolding enter told temperature_show cb_get_temperature read_temp
    temperature-Answers = (
      mutex_lock temp_lock ∷ mutex_lock sysfs_lock ∷ k.calls,
      ground arith,
      ground arith,
      ground arith,
    )

    mode-Answers : Answers read_mode k
    unfolding enter told mode_show cb_get_mode
    mode-Answers = ([], ground arith, ground arith, ground arith)

    period-Answers : Answers read_period_status k
    unfolding enter told period_status_show cb_get_period
    period-Answers = ([], ground arith, ground arith, ground arith)

    auto_period_small : (t : ℕ) → auto_period t < 501
    unfolding auto_period
    auto_period_small t = ground arith

    round-kept :
        ((regulator_round linux k).1.device_cbs ≡ k.device_cbs)
        × ((regulator_round linux k).1.temp_reg ≡ k.temp_reg)
    unfolding regulator_round look_mode process_auto_mode regulator_get_temperature read_temp
        apply_auto
    round-kept = ground arith

    round-IsUp : IsUp (regulator_round linux k).1
    round-IsUp = ground (arith, round-kept, regulator_round-IsRegulated linux k up.regulated)

    round-Answers : Answers round k
    unfolding enter told regulator_round look_mode process_auto_mode regulator_get_temperature
        read_temp apply_auto
    round-Answers =
        let cs =
          mutex_lock temp_lock
          ∷ mutex_unlock regulator_lock
          ∷ mutex_lock regulator_lock
          ∷ k.calls in
        let small = auto_period_small (to_temperature (linux.ioread32 cs) / 1000) in
        (cs, refl, ground arith, round-IsUp)

    write_mode-Answers : (buf : Bytes) (count : ℕ) → Answers (write_mode buf count) k
    unfolding enter told mode_store cb_set_mode
    write_mode-Answers buf count = elim (Option-cases (text.kstrtoint buf)) [
      | inl bad ↦ ([], ground arith, ground arith, ground arith)
      | inr (m, good) ↦ ([], ground arith, ground arith, ground arith)
    ]

    write_period-Answers :
        (buf : Bytes) (count : ℕ) → IsFaithful text → Answers (write_period_set buf count) k
    unfolding enter told period_set_store cb_set_period
    write_period-Answers buf count faithful = elim (Option-cases (text.kstrtouint buf)) [
      | inl bad ↦ ([], ground arith, ground arith, ground arith)
      | inr (p, good) ↦
          let small = faithful.uint_range buf good in ([], ground arith, ground arith, ground arith)
    ]

module _ (linux : Linux) (text : Format) (faithful : IsFaithful text) where
  pub entry-Answers : (e : Entry) (k : Kernel) → IsUp k → Answers linux text e k
  entry-Answers read_temperature k up = temperature-Answers linux text k up
  entry-Answers read_mode k up = mode-Answers linux text k up
  entry-Answers read_period_status k up = period-Answers linux text k up
  entry-Answers round k up = round-Answers linux text k up
  entry-Answers (write_mode buf count) k up = write_mode-Answers linux text k up buf count
  entry-Answers (write_period_set buf count) k up =
      write_period-Answers linux text k up buf count faithful

  -- From a loaded module in order, and where numbers read back as printed and fit their types: any
  -- reads and writes of the files and rounds of the thread behave as the requests that they make of
  -- the mode and the period. Every reader is told what is promised, every accepted write takes
  -- effect, and every other has none.
  pub entries_refine : (es : List Entry) (k : Kernel) → IsUp k → Behaves linux text es k (control k)
  entries_refine [] k up = refl
  entries_refine (e ∷ es) k up =
      let (cs, said, done, still) = entry-Answers e k up in
      (cs, said, rw (← done) (entries_refine es (enter linux text e k) still))
