-- ===== src/Multiprocessing/Process.antt =====
-- src/04-multiprocessing/process.c: one process writes five messages into a socket pair, the other
-- reads them back by their lengths. A `write` puts a whole message, and a `read` waits while the
-- socket is empty and else takes what is there, up to the length that it asks for.
pub mod Delivery
pub mod Signals
use mse_ma_csel.Common.{
  ℕ, zero, suc, ◌+◌, ◌≤◌, ◌≡◌, refl, sym, ap, ◌∙◌, ◌⊎◌, inl, inr, Bool, true, false, not, ◌&&◌,
  ◌||◌, length-append, Option, none, some, List, [], ◌∷◌, ◌++◌, take, drop, length, ltb, ◌==◌,
  if◌then◌else◌, Option-cases, Bool-cases, arith,
}
use mse_ma_csel.Common.Text.{Bytes}

-- `MSG`, up to the zeroes, in UTF-8.
abbrev pub msg : List Bytes
msg =
    (b'H' ∷ b'a' ∷ b'l' ∷ b'l' ∷ b'o' ∷ b',' ∷ b' ' ∷ b'h' ∷ b'a' ∷ b'l' ∷ b'l' ∷ b'o' ∷ b' ' ∷ b'!'
      ∷ [])
    ∷ (195 ∷ 167 ∷ b'a' ∷ b' ' ∷ b'g' ∷ b'e' ∷ b'h' ∷ b't' ∷ b' ' ∷ b'!' ∷ [])
    ∷ (b'C' ∷ b'o' ∷ b'm' ∷ b'm' ∷ b'e' ∷ b'n' ∷ b't' ∷ b' ' ∷ b'v' ∷ b'o' ∷ b'n' ∷ b't' ∷ b' '
        ∷ b'l' ∷ b'e' ∷ b's' ∷ b' ' ∷ b'o' ∷ b'l' ∷ b'i' ∷ b'v' ∷ b'e' ∷ b's' ∷ b' ' ∷ b'?' ∷ [])
    ∷ (b'S' ∷ b'a' ∷ b'c' ∷ b'r' ∷ 195 ∷ 169 ∷ b' ' ∷ b't' ∷ b'r' ∷ b'u' ∷ b'c' ∷ b's' ∷ b' ' ∷ b't'
        ∷ b'e' ∷ b's' ∷ b' ' ∷ b't' ∷ b'r' ∷ b'u' ∷ b'c' ∷ b's' ∷ b' ' ∷ b'l' ∷ 195 ∷ 160 ∷ b'.'
        ∷ [])
    ∷ (b'T' ∷ b'a' ∷ b' ' ∷ b'o' ∷ 195 ∷ 185 ∷ b' ' ∷ b'l' ∷ b'e' ∷ b's' ∷ b' ' ∷ b'v' ∷ b'a' ∷ b'c'
        ∷ b'h' ∷ b'e' ∷ b's' ∷ b' ' ∷ b'!' ∷ b'!' ∷ b'!' ∷ b'!' ∷ b'!' ∷ [])
    ∷ []

-- The program between two calls: the messages that are still to write and to read, what is in the
-- socket, and what each `read` gave, oldest first.
pub record Pair : Type 0 where
  pub to_write : List Bytes
  pub to_read : List Bytes
  pub socket : Bytes
  pub received : List Bytes

-- `write(fd[0], MSG[i], strlen(MSG[i]))`
abbrev pub write_next : List Bytes → Pair → Option Pair
write_next [] s = none
write_next (m ∷ ms) s = some (record s { to_write = ms; socket = s.socket ++ m })

-- `read(fd[1], buffer, strlen(MSG[i]))`
abbrev pub read_next : List Bytes → Pair → Option Pair
read_next [] s = none
read_next (m ∷ ms) s =
    if length s.socket == 0
    then none
    else some (record s {
      to_read = ms;
      socket = drop (length m) s.socket;
      received = s.received ++ take (length m) s.socket ∷ [];
    })

pub data Turn : Type 0 where
  writer reader : Turn

unfoldable pub turn : Turn → Pair → Option Pair
turn writer s = write_next s.to_write s
turn reader s = read_next s.to_read s

abbrev pub turns : List Turn → Option Pair → Option Pair
turns [] s = s
turns (t ∷ ts) none = none
turns (t ∷ ts) (some s) = turns ts (turn t s)

abbrev pub start : List Bytes → Pair
start msgs = record { to_write = msgs; to_read = msgs; socket = []; received = [] }
