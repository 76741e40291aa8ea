-- ===== src/Kernel/Observation.antt =====
-- What the users of the loaded module can tell apart: uses of its files, with rounds of the thread
-- between them, and the texts that readers get.
pub mod States
use mse_ma_csel.Common.{
  ◌^◌, ◌<◌, ◌≡◌, ◌↔◌, refl, sym, ap, ◌∙◌, ℕ, ◌⊎◌, inl, inr, Option, some, List, [], ◌∷◌, arith,
}
use mse_ma_csel.Common.Int.{ℤ, pos}
use mse_ma_csel.Common.Text.{Bytes, Format, IsFaithful}
use mse_ma_csel.Kernel.State.{Linux, Kernel, Call}
use mse_ma_csel.Kernel.Sysfs.{mode_show, period_status_show}
use mse_ma_csel.Kernel.Callbacks.{cb_get_mode, cb_get_period}
use mse_ma_csel.Kernel.Entries.{Entry, read_mode, read_period_status, enter}
use mse_ma_csel.Kernel.Spec.{Control, control, IsUp, perform, reply, request}
use mse_ma_csel.Kernel.Refinement.{told, entry-Answers}

module _ (linux : Linux) (text : Format) where
  -- What the readers get in turn.
  unfoldable pub replies : List Entry → Kernel → List (Option Bytes)
  replies [] k = []
  replies (e ∷ es) k = told linux text e k ∷ replies es (enter linux text e k)

  -- No use tells them apart.
  abbrev pub Same : Kernel → Kernel → Type 0
  Same k l = (es : List Entry) → replies es k ≡ replies es l

  abbrev pub ReadsAlways : ℕ → Type 0
  ReadsAlways raw = (cs : List Call) → linux.ioread32 cs ≡ raw

  module _ (faithful : IsFaithful text) where
    print_u-injective :
        (m n : ℕ) → m < 2 ^ 32 → n < 2 ^ 32 → text.print_u m ≡ text.print_u n → m ≡ n
    print_u-injective m n hm hn e =
        ground (arith, faithful.scan_back m hm, faithful.scan_back n hn, ap text.scan_u e)

    print_d-injective :
        (m n : ℤ)
        → (m ≡ pos 0) ⊎ (m ≡ pos 1)
        → (n ≡ pos 0) ⊎ (n ≡ pos 1)
        → text.print_d m ≡ text.print_d n
        → m ≡ n
    print_d-injective m n hm hn e = ground (
      arith,
      faithful.scan_int 0 (omega arith),
      faithful.scan_int 1 (omega arith),
      ap text.scan_u e,
    )

    Same-control : (k l : Kernel) → IsUp k → IsUp l → Same k l → control k ≡ control l
    unfolding replies told mode_show cb_get_mode period_status_show cb_get_period
    Same-control k l up up' same =
        let modes : text.print_d k.current_mode ≡ text.print_d l.current_mode =
          ground (arith, same (read_mode ∷ [])) in
        let periods : text.print_u k.current_period ≡ text.print_u l.current_period =
          ground (arith, same (read_period_status ∷ [])) in
        ground (
          arith,
          print_d-injective k.current_mode l.current_mode up.regulated.mode_valid
              up'.regulated.mode_valid modes,
          print_u-injective k.current_period l.current_period up.regulated.period_word
              up'.regulated.period_word periods,
        )

    module _ (raw : ℕ) (reads : ReadsAlways raw) where
      -- One use of a module in order, by its mode and period.
      record Uses (e : Entry) (k : Kernel) : Type 0 where
        said : told linux text e k ≡ reply text (request text raw e) (control k)
        done : control (enter linux text e k) ≡ perform (request text raw e) (control k)
        still : IsUp (enter linux text e k)

      entry-Uses : (e : Entry) (k : Kernel) → IsUp k → Uses e k
      entry-Uses e k up =
          let (cs, said, done, still) = entry-Answers linux text faithful e k up in
          record { said = rw (reads cs) at said; done = rw (reads cs) at done; still = still }

      control-Same :
          (es : List Entry) (k l : Kernel)
          → IsUp k
          → IsUp l
          → control k ≡ control l
          → replies es k ≡ replies es l
      unfolding replies
      control-Same [] k l up up' same = refl
      control-Same (e ∷ es) k l up up' same =
          let u = entry-Uses e k up in
          let v = entry-Uses e l up' in
          let said = u.said ∙ ap (reply text (request text raw e)) same ∙ sym v.said in
          let done = u.done ∙ ap (perform (request text raw e)) same ∙ sym v.done in
          let rest =
            control-Same es (enter linux text e k) (enter linux text e l) u.still v.still done in
          ap (λ r. r ∷ replies es (enter linux text e k)) said
          ∙ ap (λ rs. told linux text e l ∷ rs) rest

      -- Where numbers read back as printed and the sensor's register does not change: two loaded
      -- modules in order are told apart by no uses of the files, with rounds of the thread between
      -- them, if and only if they agree in the mode and the period.
      pub replies-control : (k l : Kernel) → IsUp k → IsUp l → Same k l ↔ (control k ≡ control l)
      replies-control k l up up' =
          (Same-control k l up up', λ same es. control-Same es k l up up' same)
