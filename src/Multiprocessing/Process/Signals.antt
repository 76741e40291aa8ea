-- ===== src/Multiprocessing/Process/Signals.antt =====
-- src/04-multiprocessing/process.c: the signals, and each process from its start to its end. A
-- process that has ended does nothing more.
use mse_ma_csel.Common.{
  ℕ, ◌≡◌, refl, ap, ◌∙◌, Bool, true, false, ◌&&◌, ◌||◌, not, Option, none, some, List, [], ◌∷◌,
  if◌then◌else◌, arith,
}
use mse_ma_csel.Common.Int.{ℤ, is_zero, is_neg}

pub data Signal : Type 0 where
  sighup sigint sigquit sigterm sigabrt : Signal

-- What is printed, on either stream.
pub data Output : Type 0 where
  received : Signal → Output
  socketpair_fail sched_setaffinity fork_fail parent_process child_process messages : Output

pub record State : Type 0 where
  pub printed : List Output  -- newest first
  pub exit : Option ℕ

abbrev say : Output → State → State
say o s = record s { printed = o ∷ s.printed }

abbrev ends : ℕ → State → State
ends code s = record s { exit = some code }

unfoldable pub catch_signal : Signal → State → State
catch_signal sighup s = say (received sighup) s
catch_signal sigint s = ends 0 (say (received sigint) s)
catch_signal sigquit s = say (received sigquit) s
catch_signal sigterm s = say (received sigterm) s
catch_signal sigabrt s = say (received sigabrt) s

-- `kill(getpid(), signal)`, with the handler that is installed for it.
unfoldable pub kill : Signal → State → State
kill signal s = elim s.exit [ none ↦ catch_signal signal s | some code ↦ s ]

abbrev pub kills : List Signal → State → State
kills [] s = s
kills (signal ∷ more) s = kills more (kill signal s)

-- The answers of `socketpair`, `fork` and `sched_setaffinity`.
pub record Answers : Type 0 where
  pub socketpair : Bool
  pub fork : ℤ
  pub sched_setaffinity : Bool

abbrev pub test_signals : List Signal
test_signals = sighup ∷ sigquit ∷ sigterm ∷ sigabrt ∷ sigint ∷ []

-- `return EXIT_SUCCESS;`
abbrev returns : State → State
returns s = elim s.exit [ none ↦ ends 0 s | some code ↦ s ]

-- The messages are those of Process.
unfoldable pub main : Answers → State → State
main linux s =
    if not linux.socketpair
    then ends 1 (say socketpair_fail s)
    else if is_zero linux.fork
    then (if not linux.sched_setaffinity
        then ends 1 (say Output.sched_setaffinity (say parent_process s))
        else returns (kills test_signals (say messages (say parent_process s))))
    else if is_neg linux.fork
    then ends 1 (say fork_fail s)
    else if not linux.sched_setaffinity
    then ends 1 (say Output.sched_setaffinity (say child_process s))
    else ends 0 (say child_process s)

abbrev pub fresh : State
fresh = record { printed = []; exit = none }

abbrev pub is_sigint : Signal → Bool
is_sigint sigint = true
is_sigint _ = false

-- The signals up to the first SIGINT, newest first, on top of what was printed.
abbrev pub heard : List Signal → List Output → List Output
heard [] os = os
heard (signal ∷ more) os = elim (is_sigint signal) [
  | true ↦ received signal ∷ os
  | false ↦ heard more (received signal ∷ os)
]

abbrev pub has_sigint : List Signal → Bool
has_sigint [] = false
has_sigint (signal ∷ more) = is_sigint signal || has_sigint more

abbrev running : List Output → State
running os = record { printed = os; exit = none }

ended-kills :
    (ss : List Signal) (os : List Output) (code : ℕ)
    → let s : State = record { printed = os; exit = some code } in kills ss s ≡ s
unfolding kill
ended-kills [] os code = refl
ended-kills (signal ∷ more) os code = ended-kills more os code

-- What a process that runs has printed and whether it has ended.
record Heard (ss : List Signal) (os : List Output) (s : State) : Type 0 where
  printed : s.printed ≡ heard ss os
  exit : s.exit ≡ (if has_sigint ss then some 0 else none)

running-Heard : (ss : List Signal) (os : List Output) → Heard ss os (kills ss (running os))
unfolding kill catch_signal
running-Heard [] os = record { printed = refl; exit = refl }
running-Heard (sigint ∷ more) os =
    rw (ended-kills more (received sigint ∷ os) 0) (record { printed = refl; exit = refl })
running-Heard (signal ∷ more) os =
    let h = running-Heard more (received signal ∷ os) in
    record { printed = h.printed; exit = h.exit }

-- A process that runs survives every signal but SIGINT, prints each, in order, and ends with code 0
-- at the first SIGINT; what comes after it is not printed.
pub kills-heard :
    (ss : List Signal) (s : State)
    → s.exit ≡ none
    → ((kills ss s).printed ≡ heard ss s.printed)
      × ((kills ss s).exit ≡ (if has_sigint ss then some 0 else none))
kills-heard ss s runs =
    let eq : s ≡ running s.printed = ground arith in
    let h = running-Heard ss s.printed in
    (
      ap (λ (t : State). (kills ss t).printed) eq ∙ h.printed,
      ap (λ (t : State). (kills ss t).exit) eq ∙ h.exit,
    )

-- The process ends, with code 0 if and only if no call is refused; the one that reads hears its
-- five signals.
pub main-ends :
    (linux : Answers)
    → let s = main linux fresh in
      (s.exit
        ≡ some (
            if linux.socketpair && linux.sched_setaffinity && not (is_neg linux.fork)
            then 0
            else 1))
      × (is_zero linux.fork && linux.socketpair && linux.sched_setaffinity ≡ true
          → s.printed ≡ heard test_signals (messages ∷ parent_process ∷ []))
unfolding main kill catch_signal
main-ends linux = ground arith
