-- ===== src/Gdb/Commands/Accepted.antt =====
-- A packet that is made as `debug_send` makes it, and taken apart again.
use sys.Base.{
  ℕ, zero, suc, ◌+◌, ◌-◌, ◌/◌, ◌%◌, ◌^◌, ◌≤◌, ◌<◌, ◌≡◌, refl, sym, ◌∙◌, ap, Bool, true, false, not,
  List, [], ◌∷◌, ◌++◌, Option, none, some, take, drop, length, length-append, ltb, ◌==◌,
  if◌then◌else◌, u32, Outcome, ok, arith,
}
use mathlib.Core.List.{append_assoc}
use sys.Base.Ints.{pos, eqb_ℤ, int32}
use sys.Gdb.{GdbPort}
use sys.Gdb.Text.{c_string, hex_digit, hex_digits, checksum, check_text, frame}
use sys.Gdb.Frames.{memchr, complete, starting, next_packet}
use sys.Gdb.Commands.{run_command, cut_at, exec_body, debug_exec}

-- Characters that a packet may have: ASCII, without the zero byte and the `#`.
abbrev pub IsPlain : List ℕ → Type 0
IsPlain [] = Unit
IsPlain (c ∷ s) = (0 < c) × (c < 128) × ((c == b'#') ≡ false) × IsPlain s

abbrev pub sum : List ℕ → ℕ
sum [] = 0
sum (c ∷ s) = c + sum s

-- The two digits of the checksum.
abbrev check_digits : List ℕ → List ℕ
check_digits s = hex_digits 2 (sum s % 256)

checksum-sum : (s : List ℕ) → IsPlain s → checksum s ≡ pos (sum s)
unfolding checksum
checksum-sum [] h = refl
checksum-sum (c ∷ s) (lo, hi, other, h) =
    let ascii : ltb c 128 ≡ true = ground (arith, hi) in rw (ascii, checksum-sum s h) (ground arith)

check_text-digits : (s : List ℕ) → IsPlain s → check_text s ≡ b'#' ∷ check_digits s
unfolding check_text hex_digits
check_text-digits s h =
    let small : sum s % 256 % 2 ^ 32 ≡ sum s % 256 = omega arith in
    let two : ltb (sum s % 256) (16 ^ 2) ≡ true = ground arith in
    rw (checksum-sum s h, small, two) refl

c_string-plain : (s t : List ℕ) → IsPlain s → c_string (s ++ t) ≡ s ++ c_string t
c_string-plain [] t h = refl
c_string-plain (c ∷ s) t (lo, hi, other, h) =
    let some_char : (c == 0) ≡ false = ground (arith, lo) in
    rw some_char (ap (λ l. c ∷ l) (c_string-plain s t h))

digit_pos : (d : ℕ) → (hex_digit d == 0) ≡ false
digit_pos d = ground arith

c_string-digits : (v : ℕ) → c_string (b'#' ∷ hex_digits 2 v) ≡ b'#' ∷ hex_digits 2 v
unfolding hex_digits
c_string-digits v = rw (digit_pos (v / 16 % 16), digit_pos (v % 16)) refl

length-digits : (v : ℕ) → length (hex_digits 2 v) ≡ 2
unfolding hex_digits
length-digits v = refl

memchr-plain : (s t : List ℕ) → IsPlain s → memchr b'#' (s ++ (b'#' ∷ t)) ≡ some (b'#' ∷ t)
unfolding memchr
memchr-plain [] t h = refl
memchr-plain (c ∷ s) t (lo, hi, other, h) = rw other (memchr-plain s t h)

take-front : (s t : List ℕ) (n : ℕ) → n ≡ length s → take n (s ++ t) ≡ s
take-front [] t zero e = refl
take-front [] t (suc n) e = absurd (omega (arith, e))
take-front (c ∷ s) t zero e = absurd (omega (arith, e))
take-front (c ∷ s) t (suc n) e = ap (λ l. c ∷ l) (take-front s t n (omega (arith, e)))

append-nil : (s : List ℕ) → s ++ [] ≡ s
append-nil [] = refl
append-nil (c ∷ s) = ap (λ l. c ∷ l) (append-nil s)

frame-plain : (s : List ℕ) → IsPlain s → frame s ≡ b'$' ∷ (s ++ (b'#' ∷ check_digits s))
unfolding frame
frame-plain s h =
    let whole : c_string s ≡ s =
      ap c_string (sym (append-nil s)) ∙ c_string-plain s [] h ∙ append-nil s in
    rw (whole, check_text-digits s h) refl

drop-front : (s t : List ℕ) (n : ℕ) → n ≡ length s → drop n (s ++ t) ≡ t
drop-front [] t zero e = refl
drop-front [] t (suc n) e = absurd (omega (arith, e))
drop-front (c ∷ s) t zero e = absurd (omega (arith, e))
drop-front (c ∷ s) t (suc n) e = drop-front s t n (omega (arith, e))

complete-whole :
    (packet more hash : List ℕ)
    → length hash ≡ length more + 3
    → 3 ≤ length packet
    → complete (packet ++ more) (some hash) ≡ some (packet, more)
unfolding complete
complete-whole packet more hash e le =
    let n = length (packet ++ more) - length hash + 3 in
    let same : n ≡ length packet = omega (arith, e, le, length-append packet more) in
    let fits : ltb (length (packet ++ more)) n ≡ false =
      ground (arith, same, length-append packet more) in
    rw (fits, take-front packet more n same, drop-front packet more n same) refl

-- A packet with `v` as its checksum.
abbrev pub packet : List ℕ → ℕ → List ℕ
packet s v = b'$' ∷ (s ++ (b'#' ∷ hex_digits 2 v))

next_packet-packet :
    (s more : List ℕ) (v : ℕ)
    → IsPlain s
    → next_packet (packet s v ++ more) ≡ some (packet s v, more)
unfolding next_packet memchr starting
next_packet-packet s more v h =
    let digits = hex_digits 2 v in
    let hash : memchr b'#' (packet s v ++ more) ≡ some (b'#' ∷ (digits ++ more)) =
      ap (memchr b'#') (append_assoc s (b'#' ∷ digits) more) ∙ memchr-plain s (digits ++ more) h in
    ap (complete (packet s v ++ more)) hash
    ∙ complete-whole (packet s v) more (b'#' ∷ (digits ++ more))
        (omega (arith, length-append digits more, length-digits v))
        (omega (arith, length-append s (b'#' ∷ digits), length-digits v))

module _ {W : Type 0} (port : GdbPort W) (big : Bool)
    (reads_digits : (v : ℕ) → v < 256 → (port.strtoul (hex_digits 2 v)).0 ≡ v) where
  -- What a packet with the checksum `v` does: the command with `+`, or `-`.
  abbrev pub answer : ℕ → List ℕ → ℕ → ℕ × W → Outcome (ℕ × W)
  answer c s v (debug_cpu, w) =
      if v == sum (c ∷ s) % 256
      then run_command port big c (s ++ (0 ∷ hex_digits 2 v)) (debug_cpu, port.write (b'+' ∷ []) w)
      else ok (debug_cpu, port.write (b'-' ∷ []) w)

  exec_body-answer :
      (c : ℕ) (s : List ℕ) (v debug_cpu : ℕ) (w : W)
      → IsPlain (c ∷ s)
      → v < 256
      → exec_body port big (c ∷ s) (hex_digits 2 v) (debug_cpu, w) ≡ answer c s v (debug_cpu, w)
  unfolding exec_body
  exec_body-answer c s v debug_cpu w h small =
      rw (reads_digits v small, checksum-sum (c ∷ s) h) (tested (v == sum (c ∷ s) % 256) refl)
    where
      tested :
          (b : Bool)
          → (v == sum (c ∷ s) % 256) ≡ b
          → (if not (eqb_ℤ (int32 (u32 v)) (pos (sum (c ∷ s) % 256)))
              then ok (debug_cpu, port.write (b'-' ∷ []) w)
              else run_command port big c
                  (s ++ (0 ∷ hex_digits 2 v))
                  (debug_cpu, port.write (b'+' ∷ []) w))
            ≡ (if b
                then run_command port big c
                    (s ++ (0 ∷ hex_digits 2 v))
                    (debug_cpu, port.write (b'+' ∷ []) w)
                else ok (debug_cpu, port.write (b'-' ∷ []) w))
      tested true e =
          let right : eqb_ℤ (int32 (u32 v)) (pos (sum (c ∷ s) % 256)) ≡ true =
            ground (arith, e, small) in
          rw right refl
      tested false e =
          let wrong : eqb_ℤ (int32 (u32 v)) (pos (sum (c ∷ s) % 256)) ≡ false =
            ground (arith, e, small) in
          rw wrong refl

  -- `debug_exec` once the `#` is looked for.
  abbrev at_hash : List ℕ → Option (List ℕ) → ℕ × W → Outcome (ℕ × W)
  at_hash body o s = elim o [
    | none ↦ ok s
    | some hash ↦ exec_body port big (cut_at port big body hash) (drop 1 hash) s
  ]

  debug_exec-answer :
      (c : ℕ) (s : List ℕ) (v debug_cpu : ℕ) (w : W)
      → IsPlain (c ∷ s)
      → v < 256
      → debug_exec port big (packet (c ∷ s) v) (debug_cpu, w) ≡ answer c s v (debug_cpu, w)
  unfolding debug_exec
  debug_exec-answer c s v debug_cpu w h small =
      let digits = hex_digits 2 v in
      let body = (c ∷ s) ++ (b'#' ∷ digits) in
      let whole : c_string body ≡ body =
        c_string-plain (c ∷ s) (b'#' ∷ digits) h ∙ ap (λ t. (c ∷ s) ++ t) (c_string-digits v) in
      let cut : cut_at port big body (b'#' ∷ digits) ≡ c ∷ s =
        take-front (c ∷ s) (b'#' ∷ digits) _
          (omega (arith, ap length whole, length-append (c ∷ s) (b'#' ∷ digits))) in
      ap (λ o. at_hash body o (debug_cpu, w))
        (ap (memchr b'#') whole ∙ memchr-plain (c ∷ s) digits h)
      ∙ ap (λ b. exec_body port big b digits (debug_cpu, w)) cut
      ∙ exec_body-answer c s v debug_cpu w h small

  -- For a text of one or more ASCII characters other than the zero byte and `#`: `debug_send` frames
  -- it with the sum of its characters modulo 256 as its checksum, in two digits. A packet that has
  -- the text and two digits, at the head of the input, is found, with what follows it left;
  -- `debug_exec` executes its command, with a `+`, where the digits are those of that sum, and
  -- otherwise answers with a `-` and does no more. The C library reads two hexadecimal digits as the
  -- number that they are.
  pub debug_exec-frame :
      (c : ℕ) (s more : List ℕ) (v debug_cpu : ℕ) (w : W)
      → IsPlain (c ∷ s)
      → v < 256
      → (frame (c ∷ s) ≡ packet (c ∷ s) (sum (c ∷ s) % 256))
        × (next_packet (packet (c ∷ s) v ++ more) ≡ some (packet (c ∷ s) v, more))
        × (debug_exec port big (packet (c ∷ s) v) (debug_cpu, w) ≡ answer c s v (debug_cpu, w))
  debug_exec-frame c s more v debug_cpu w h small = (
    frame-plain (c ∷ s) h,
    next_packet-packet (c ∷ s) more v h,
    debug_exec-answer c s v debug_cpu w h small,
  )
