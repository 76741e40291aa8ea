-- ===== src/Multiprocessing/Process/Delivery.antt =====
-- The messages arrive whole and in order, and the processes do not block each other.
use mse_ma_csel.Common.{
  ◌≡◌, refl, sym, ap, ◌∙◌, ◌⊎◌, inl, inr, Bool, true, false, not, ◌&&◌, ◌||◌, length-append, Option,
  none, some, List, [], ◌∷◌, ◌++◌, take, drop, length, ◌==◌, Option-cases, arith,
}
use mathlib.Core.List.{append_assoc, append-nil}
use mse_ma_csel.Common.Text.{Bytes}
use mse_ma_csel.Multiprocessing.Process.{
  Pair, write_next, read_next, Turn, writer, reader, turn, turns, start,
}

abbrev joined : List Bytes → Bytes
joined [] = []
joined (m ∷ ms) = m ++ joined ms

-- No message is empty.
abbrev pub all_filled : List Bytes → Bool
all_filled [] = true
all_filled (m ∷ ms) = not (length m == 0) && all_filled ms

-- The messages in the socket are whole: those that were written and are not read.
record IsWhole (msgs : List Bytes) (s : Pair) : Type 0 where
  waiting : List Bytes
  inside : s.socket ≡ joined waiting
  ahead : s.to_read ≡ waiting ++ s.to_write
  behind : s.received ++ s.to_read ≡ msgs
  filled : all_filled s.to_read ≡ true

joined-append : (ms : List Bytes) (m : Bytes) → joined (ms ++ m ∷ []) ≡ joined ms ++ m
joined-append [] m = append-nil m
joined-append (n ∷ ms) m = rw (joined-append ms m) (sym (append_assoc n (joined ms) m))

take-append : (xs ys : Bytes) → take (length xs) (xs ++ ys) ≡ xs
take-append [] ys = refl
take-append (x ∷ xs) ys = ap (◌∷◌ x) (take-append xs ys)

drop-append : (xs ys : Bytes) → drop (length xs) (xs ++ ys) ≡ ys
drop-append [] ys = refl
drop-append (x ∷ xs) ys = drop-append xs ys

write-IsWhole :
    (msgs todo : List Bytes) (s t : Pair)
    → s.to_write ≡ todo
    → IsWhole msgs s
    → write_next todo s ≡ some t
    → IsWhole msgs t
write-IsWhole msgs [] s t at h e = ground arith
write-IsWhole msgs (m ∷ ms) s t at h e =
    let eq : record s { to_write = ms; socket = s.socket ++ m } ≡ t = ground arith in
    let whole : IsWhole msgs (record s { to_write = ms; socket = s.socket ++ m }) = record {
      waiting = h.waiting ++ m ∷ [];
      inside = rw (h.inside) (sym (joined-append h.waiting m));
      ahead = h.ahead ∙ rw at (sym (append_assoc h.waiting (m ∷ []) ms));
      behind = h.behind;
      filled = h.filled;
    } in
    rw eq at whole

read-IsWhole :
    (msgs todo waiting : List Bytes) (s t : Pair)
    → s.to_read ≡ todo
    → s.socket ≡ joined waiting
    → todo ≡ waiting ++ s.to_write
    → s.received ++ todo ≡ msgs
    → all_filled todo ≡ true
    → read_next todo s ≡ some t
    → IsWhole msgs t
read-IsWhole msgs [] waiting s t at i a b f e = ground arith
read-IsWhole msgs (m ∷ ms) [] s t at i a b f e = ground (arith, i)
read-IsWhole msgs (m ∷ ms) (n ∷ ns) s t at i a b f e =
    let same : m ≡ n = ground (arith, a) in
    let rest : ms ≡ ns ++ s.to_write = ground (arith, a) in
    let socket : s.socket ≡ m ++ joined ns = i ∙ ap (λ x. x ++ joined ns) (sym same) in
    let got : take (length m) s.socket ≡ m = rw socket (take-append m (joined ns)) in
    let left : drop (length m) s.socket ≡ joined ns = rw socket (drop-append m (joined ns)) in
    let whole : IsWhole msgs (record s {
      to_read = ms;
      socket = drop (length m) s.socket;
      received = s.received ++ take (length m) s.socket ∷ [];
    }) =
      record {
        waiting = ns;
        inside = left;
        ahead = rest;
        behind = rw (got, append_assoc s.received (m ∷ []) ms) b;
        filled = ground (arith, f);
      } in
    let eq : record s {
      to_read = ms;
      socket = drop (length m) s.socket;
      received = s.received ++ take (length m) s.socket ∷ [];
    }
        ≡ t =
      ground arith in
    rw eq at whole

turn-IsWhole :
    (msgs : List Bytes) (m : Turn) (s t : Pair)
    → IsWhole msgs s
    → turn m s ≡ some t
    → IsWhole msgs t
unfolding turn
turn-IsWhole msgs writer s t h e = write-IsWhole msgs s.to_write s t refl h e
turn-IsWhole msgs reader s t h e =
    read-IsWhole msgs s.to_read h.waiting s t refl h.inside h.ahead h.behind h.filled e

none-turns : (ts : List Turn) (t : Pair) → turns ts none ≡ some t → ⊥
none-turns [] t e = ground arith
none-turns (m ∷ ts) t e = ground arith

turns-IsWhole :
    (msgs : List Bytes) (ts : List Turn) (s t : Pair)
    → IsWhole msgs s
    → turns ts (some s) ≡ some t
    → IsWhole msgs t
turns-IsWhole msgs [] s t h e = let eq : s ≡ t = ground arith in rw eq at h
turns-IsWhole msgs (m ∷ ts) s t h e = elim (Option-cases (turn m s)) [
  | inl stuck ↦ absurd (none-turns ts t (rw stuck at e))
  | inr (u, moved) ↦ turns-IsWhole msgs ts u t (turn-IsWhole msgs m s u h moved) (rw moved at e)
]

start-IsWhole : (msgs : List Bytes) → all_filled msgs ≡ true → IsWhole msgs (start msgs)
start-IsWhole msgs f = record {
  waiting = [];
  inside = refl;
  ahead = refl;
  behind = refl;
  filled = f;
}

abbrev is_some : Option Pair → Bool
is_some none = false
is_some (some s) = true

-- One of the processes can go on.
abbrev pub goes_on : Pair → Bool
goes_on s = is_some (turn writer s) || is_some (turn reader s)

goes_on_lem :
    (waiting to_write to_read : List Bytes) (s : Pair)
    → s.to_write ≡ to_write
    → s.to_read ≡ to_read
    → to_read ≡ waiting ++ to_write
    → s.socket ≡ joined waiting
    → all_filled to_read ≡ true
    → (to_read ≡ []) ⊎ (goes_on s ≡ true)
unfolding turn
goes_on_lem waiting (m ∷ ms) rs s w r a i f = inr (rw w refl)
goes_on_lem [] [] rs s w r a i f = inl a
goes_on_lem (m ∷ ms) [] [] s w r a i f = inl refl
goes_on_lem (m ∷ ms) [] (n ∷ ns) s w r a i f =
    let same : n ≡ m = ground (arith, a) in
    let long = ap length i ∙ length-append m (joined ms) in
    let full : length s.socket == 0 ≡ false = ground (arith, long, f, same) in
    inr (rw (w, r) (rw full refl))

-- With messages that are not empty, and in whatever order the two processes take their turns: what
-- was read and what is still to read are the messages, in order and each whole; and while some is
-- to read, one of the processes can go on.
pub process_delivers :
    (msgs : List Bytes) (ts : List Turn) (s : Pair)
    → all_filled msgs ≡ true
    → turns ts (some (start msgs)) ≡ some s
    → (s.received ++ s.to_read ≡ msgs) × ((s.to_read ≡ []) ⊎ (goes_on s ≡ true))
process_delivers msgs ts s f e =
    let h = turns-IsWhole msgs ts (start msgs) s (start-IsWhole msgs f) e in
    (h.behind, goes_on_lem h.waiting s.to_write s.to_read s refl refl h.ahead h.inside h.filled)
