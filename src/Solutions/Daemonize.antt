-- ===== src/Solutions/Daemonize.antt =====
-- src/solutions/01_environment/daemon/daemon.c: a process that makes itself a daemon and sleeps.
-- The log and the user table are left out but for their answers.
use mse_ma_csel.Common.{
  ℕ, suc, ◌+◌, ◌-◌, ◌≤◌, ◌≡◌, refl, Bool, true, false, ◌&&◌, List, [], ◌∷◌, leb, if◌then◌else◌,
  arith,
}
use mse_ma_csel.Common.Int.{ℤ, is_zero, is_neg}

-- The answers of the calls; `fork` gives what the first and the second call return.
pub record Answers : Type 0 where
  pub fork_1 : ℤ
  pub fork_2 : ℤ
  pub setsid : Bool
  pub chdir : Bool
  pub open_null : Bool  -- descriptor 0 is given
  pub dup2_stdout : Bool
  pub dup2_stderr : Bool
  pub getpwnam : Bool
  pub chroot : Bool
  pub setegid : Bool
  pub seteuid : Bool

-- What a descriptor stands for.
pub data Stream : Type 0 where
  inherited closed dev_null : Stream

pub record DaemonProcess : Type 0 where
  pub leads_session : Bool
  pub own_session : Bool
  pub catches : Bool
  pub at_root : Bool
  pub stdin : Stream
  pub stdout : Stream
  pub stderr : Stream
  pub confined : Bool
  pub group_dropped : Bool
  pub user_dropped : Bool

-- The process goes on, or ends with a code.
pub data End : Type 0 where
  goes_on : DaemonProcess → End
  exits : ℕ → End

-- `if (!ok) exit(1);`
abbrev check : Bool → DaemonProcess → (DaemonProcess → End) → End
check ok p next = if ok then next p else exits 1

-- The child goes on, its parent ends with success.
unfoldable pub fork_process : ℤ → DaemonProcess → (DaemonProcess → End) → End
fork_process pid p next = if is_zero pid then next p else if is_neg pid then exits 1 else exits 0

abbrev close_all : DaemonProcess → DaemonProcess
close_all p = record p { stdin = closed; stdout = closed; stderr = closed }

-- main up to its body. A child of a session's leader leads no session.
unfoldable pub daemonize : Answers → DaemonProcess → End
daemonize os p = fork_process os.fork_1 p (λ p.
    check os.setsid (record p { leads_session = true; own_session = true })
      (λ p.
        fork_process os.fork_2 (record p { leads_session = false })
          (λ p.
            check os.chdir (record p { catches = true; at_root = true })
              (λ p.
                check os.open_null (record (close_all p) { stdin = dev_null })
                  (λ p.
                    check os.dup2_stdout (record p { stdout = dev_null })
                      (λ p.
                        check os.dup2_stderr (record p { stderr = dev_null })
                          (λ p. check os.getpwnam p (λ p.
                            check os.chroot (record p { confined = true })
                              (λ p.
                                check os.setegid (record p { group_dropped = true })
                                  (λ p.
                                    check os.seteuid (record p { user_dropped = true })
                                      (λ p. goes_on p)))))))))))

-- The body: `naps` are the seconds that pass before each signal; `sleep` returns what is left, and
-- after the last signal sleeps on to the end. The seconds slept, and the signals caught.
unfoldable pub body : List ℕ → ℕ → ℕ × ℕ
body [] t = (t, 0)
body (nap ∷ naps) t =
    let (slept, signals) = body naps (t - nap) in
    if leb t nap then (t, 0) else (nap + slept, suc signals)

-- What the body runs in.
pub record IsDaemon (p : DaemonProcess) : Type 0 where
  pub leads_none : p.leads_session ≡ false
  pub own : p.own_session ≡ true
  pub catching : p.catches ≡ true
  pub at_root : p.at_root ≡ true
  pub silent : (p.stdin ≡ dev_null) × (p.stdout ≡ dev_null) × (p.stderr ≡ dev_null)
  pub confined : p.confined ≡ true
  pub dropped : (p.group_dropped ≡ true) × (p.user_dropped ≡ true)

abbrev pub Becomes : End → Type 0
Becomes (goes_on p) = IsDaemon p
Becomes (exits code) = code ≤ 1

abbrev pub does_go_on : End → Bool
does_go_on (goes_on p) = true
does_go_on (exits code) = false

-- However calls are refused: a process that comes to the body leads no session, is in one of its
-- own, at the root, with its three streams on /dev/null, confined and without its rights; any other
-- ends with 0, as a parent, or 1. It comes to the body if it is the child of both forks and no call
-- is refused.
pub daemonize-Becomes :
    (os : Answers) (p : DaemonProcess)
    → Becomes (daemonize os p)
      × (does_go_on (daemonize os p) ≡ (
          is_zero os.fork_1
          && is_zero os.fork_2
          && os.setsid
          && os.chdir
          && os.open_null
          && os.dup2_stdout
          && os.dup2_stderr
          && os.getpwnam
          && os.chroot
          && os.setegid
          && os.seteuid))
unfolding daemonize fork_process
daemonize-Becomes os p = ground arith

-- However often signals come, the body sleeps for the whole time.
pub body_sleeps : (naps : List ℕ) (t : ℕ) → (body naps t).0 ≡ t
unfolding body
body_sleeps [] t = refl
body_sleeps (nap ∷ naps) t = ground (arith, body_sleeps naps (t - nap))
