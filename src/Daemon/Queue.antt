-- ===== src/Daemon/Queue.antt =====
-- The queue of animations of src/06-mini-project/daemon/application/app.c: presses of the buttons,
-- with the callbacks that daemon/main.c gives them, and turns of the thread that plays the
-- animations, in any order.
use mse_ma_csel.Common.{
  ℕ, zero, suc, ◌+◌, ◌≤◌, ◌≡◌, ◌⊎◌, inl, inr, refl, ap, ◌∙◌, Bool, true, false, List, [], ◌∷◌, ◌++◌,
  replicate, arith,
}
use mse_ma_csel.Common.Text.{Format}
use mse_ma_csel.Daemon.State.{Files, Daemon}
use mse_ma_csel.Daemon.Files.{sysfs_get_mode, sysfs_set_mode, sysfs_get_period, sysfs_set_period}
use mse_ma_csel.Daemon.App.{
  set_period, set_mode, increase_period, decrease_period, mode_toggle, btn_increase_period,
  btn_decrease_period, trigger_pulse, animation_turn,
}
use mse_ma_csel.Daemon.Main.{BtnType, btn_increase, btn_decrease, btn_mode, btn_callback}

pub data Move : Type 0 where
  press : BtnType → Move
  turn : Move

module _ {W : Type 0} (files : Files W) (text : Format) where
  unfoldable pub move : Move → Daemon W → Daemon W
  move (press type) d = (btn_callback files text type d).1
  move turn d = (animation_turn d).1

  unfoldable pub moves : List Move → Daemon W → Daemon W
  moves [] d = d
  moves (m ∷ ms) d = moves ms (move m d)

-- The flashes that a button's press asks for: the mode button's is not shown.
abbrev pub asked : BtnType → ℕ
asked btn_increase = 1
asked btn_decrease = 1
asked btn_mode = 0

abbrev pub presses : List Move → ℕ
presses [] = 0
presses (press type ∷ ms) = asked type + presses ms
presses (turn ∷ ms) = presses ms

-- The thread runs, and the LED is set.
pub record IsPlaying {W : Type 0} (d : Daemon W) : Type 0 where
  pub has_led : d.led ≡ true
  pub running : d.keep_running ≡ true

presses-turns : (ms : List Move) (n : ℕ) → presses (ms ++ replicate n turn) ≡ presses ms
presses-turns [] zero = refl
presses-turns [] (suc n) = presses-turns [] n
presses-turns (press type ∷ ms) n = ap (λ k. asked type + k) (presses-turns ms n)
presses-turns (turn ∷ ms) n = presses-turns ms n

-- What concerns the queue, and stays.
record IsSame {W : Type 0} (d e : Daemon W) : Type 0 where
  pending : e.pending_animations ≡ d.pending_animations
  lights : e.lights ≡ d.lights
  led : e.led ≡ d.led
  running : e.keep_running ≡ d.keep_running

-- `n` times the LED was lit and darkened, after what was written before.
abbrev pub flashes : ℕ → List Bool → List Bool
flashes zero ls = ls
flashes (suc n) ls = flashes n (false ∷ true ∷ ls)

module _ {W : Type 0} (files : Files W) (text : Format) where
  increase_period-IsSame : (d : Daemon W) → IsSame d (increase_period files text d).1
  unfolding increase_period set_period sysfs_get_period sysfs_set_period
  increase_period-IsSame d = ground arith

  decrease_period-IsSame : (d : Daemon W) → IsSame d (decrease_period files text d).1
  unfolding decrease_period set_period sysfs_get_period sysfs_set_period
  decrease_period-IsSame d = ground arith

  mode_toggle-IsSame : (d : Daemon W) → IsSame d (mode_toggle files text d).1
  unfolding mode_toggle set_mode sysfs_get_mode sysfs_set_mode
  mode_toggle-IsSame d = ground arith

  move-press :
      (type : BtnType) (d : Daemon W)
      → IsSame
          (record d { pending_animations = d.pending_animations + asked type })
          (move files text (press type) d)
  unfolding move btn_increase_period btn_decrease_period trigger_pulse
  move-press btn_increase d = ground (arith, increase_period-IsSame (trigger_pulse d).1)
  move-press btn_decrease d = ground (arith, decrease_period-IsSame (trigger_pulse d).1)
  move-press btn_mode d = ground (arith, mode_toggle-IsSame d)

  move-IsPlaying : (m : Move) (d : Daemon W) → IsPlaying d → IsPlaying (move files text m d)
  unfolding move animation_turn
  move-IsPlaying (press type) d h =
      let same = move-press type d in
      record { has_led = same.led ∙ h.has_led; running = same.running ∙ h.running }
  move-IsPlaying turn d h = ground arith

  -- A turn plays one animation, or there is none.
  move-turn :
      (d : Daemon W)
      → IsPlaying d
      → ((d.pending_animations ≡ (move files text turn d).pending_animations + 1)
          × ((move files text turn d).lights ≡ false ∷ true ∷ d.lights))
        ⊎ ((d.pending_animations ≡ 0)
            × ((move files text turn d).pending_animations ≡ 0)
            × ((move files text turn d).lights ≡ d.lights))
  unfolding move animation_turn
  move-turn d h = ground arith

  -- While the thread runs and the LED is set, and in whatever order presses and turns come: the LED
  -- was lit and darkened some number of times, and this number and the animations that are still
  -- pending make up those that were pending before and the presses of the two period buttons.
  pub moves-flashes :
      (ms : List Move) (d : Daemon W)
      → IsPlaying d
      → (n : ℕ) × ((moves files text ms d).lights ≡ flashes n d.lights)
        × (n + (moves files text ms d).pending_animations ≡ d.pending_animations + presses ms)
  unfolding moves
  moves-flashes [] d h = (0, refl, omega arith)
  moves-flashes (press type ∷ ms) d h =
      let (n, lit, count) =
        moves-flashes ms (move files text (press type) d) (move-IsPlaying (press type) d h) in
      let same = move-press type d in
      (n, lit ∙ ap (flashes n) same.lights, omega (arith, count, same.pending))
  moves-flashes (turn ∷ ms) d h =
      let (n, lit, count) = moves-flashes ms (move files text turn d) (move-IsPlaying turn d h) in
      elim (move-turn d h) [
        | inl (fewer, played) ↦ (suc n, lit ∙ ap (flashes n) played, omega (arith, count, fewer))
        | inr (empty, still, same) ↦
            (n, lit ∙ ap (flashes n) same, omega (arith, count, empty, still))
      ]

  -- As many turns as there are pending animations, or more, play them all.
  pub moves-empty :
      (n : ℕ) (d : Daemon W)
      → IsPlaying d
      → d.pending_animations ≤ n
      → (moves files text (replicate n turn) d).pending_animations ≡ 0
  unfolding moves
  moves-empty zero d h few = omega arith
  moves-empty (suc n) d h few =
      moves-empty n (move files text turn d) (move-IsPlaying turn d h)
        (omega (arith, move-turn d h))

  moves-append :
      (ms ns : List Move) (d : Daemon W)
      → moves files text (ms ++ ns) d ≡ moves files text ns (moves files text ms d)
  unfolding moves
  moves-append [] ns d = refl
  moves-append (m ∷ ms) ns d = moves-append ms ns (move files text m d)

  moves-IsPlaying :
      (ms : List Move) (d : Daemon W) → IsPlaying d → IsPlaying (moves files text ms d)
  unfolding moves
  moves-IsPlaying [] d h = h
  moves-IsPlaying (m ∷ ms) d h = moves-IsPlaying ms (move files text m d) (move-IsPlaying m d h)

  -- While the thread runs and the LED is set: after any presses of the three buttons and any turns
  -- of the thread, in any order, and then as many turns as there were pending animations and
  -- presses of the increase and decrease buttons, or more, the LED was lit and darkened once for
  -- each of them, and no animation is pending. A press of the mode button flashes nothing.
  pub moves-all_played :
      (ms : List Move) (n : ℕ) (d : Daemon W)
      → IsPlaying d
      → d.pending_animations + presses ms ≤ n
      → let d' = moves files text (ms ++ replicate n turn) d in
        (d'.lights ≡ flashes (d.pending_animations + presses ms) d.lights)
        × (d'.pending_animations ≡ 0)
  moves-all_played ms n d h enough =
      let (played, _, count) = moves-flashes ms d h in
      let (all, lit, sum) = moves-flashes (ms ++ replicate n turn) d h in
      let e =
        moves-empty n (moves files text ms d) (moves-IsPlaying ms d h) (omega (arith, count)) in
      let drained : (moves files text (ms ++ replicate n turn) d).pending_animations ≡ 0 =
        rw (moves-append ms (replicate n turn) d) e in
      let same : all ≡ d.pending_animations + presses ms =
        omega (arith, sum, drained, presses-turns ms n) in
      (lit ∙ ap (λ k. flashes k d.lights) same, drained)
