-- ===== src/Tests/Gdb.antt =====
-- The theorems on the gdb server, with a connection that keeps what is written to it.
use sys.Base.{
  ap, ◌∙◌, ℕ, ◌+◌, ◌-◌, ◌*◌, ◌/◌, ◌%◌, ◌≤◌, ◌<◌, ◌≡◌, ◌↔◌, refl, true, ◌&&◌, List, [], ◌∷◌, ◌++◌,
  Option, none, some, leb, if◌then◌else◌, ok, arith,
}
use sys.Gdb.{GdbPort}
use sys.Gdb.Frames.{gdb_receive, packets_from, next_packet, memchr, starting, complete}
use sys.Gdb.Frames.Chunks.{gdb_receive-append}
use sys.Gdb.Memory.{read_text}
use sys.Gdb.Memory.Replies.{HasLength, read_text-length}
use sys.Gdb.Commands.{debug_exec, exec_body, run_command}
use sys.Gdb.Text.{checksum, frame, hex_digit, hex_digits}
use sys.Gdb.Commands.Accepted.{packet, answer, debug_exec-frame}

-- The value of a digit, and of a text that begins with some.
abbrev digit : ℕ → Option ℕ
digit c =
    if leb 48 c && leb c 57
    then some (c - 48)
    else if leb 97 c && leb c 102
    then some (c - 87)
    else none

abbrev parse : ℕ → List ℕ → ℕ × List ℕ
parse value [] = (value, [])
parse value (c ∷ s) = elim (digit c) [ none ↦ (value, c ∷ s) | some d ↦ parse (value * 16 + d) s ]

abbrev port : GdbPort (List ℕ)
port = record {
  strtoul = parse 0;
  write = λ bytes w. w ++ bytes;
  fetch_byte = λ cpu addr w. (some (addr % 256), w);
  fetch_word = λ cpu addr w. (some 0x0102_0304, w);
  store_byte = λ cpu addr b w. (true, w);
  store_word = λ cpu addr v w. (true, w);
  getregs = λ cpu w. [];
  numcpus = λ w. 2;
  cpu_enabled = λ cpu w. true;
  set_entrypoint = λ cpu addr w. w;
  onecycle = λ w. w;
  leave_debugger = λ w. w;
  reqdie = λ w. ok w;
}

-- "$R#52$" and "H#48".
abbrev first : List ℕ
first = b'$' ∷ (b'R' ∷ (b'#' ∷ (b'5' ∷ (b'2' ∷ (b'$' ∷ [])))))

abbrev second : List ℕ
second = b'H' ∷ (b'#' ∷ (b'4' ∷ (b'8' ∷ [])))

received : gdb_receive (debug_exec port true) [] first (0, []) ≡ ok (b'$' ∷ [], (0, b'+' ∷ []))
unfolding gdb_receive packets_from next_packet memchr starting complete debug_exec exec_body
    run_command checksum
received = refl

gdb_receive-append_example :
    gdb_receive (debug_exec port true) [] (first ++ second) (0, [])
    ≡ gdb_receive (debug_exec port true) (b'$' ∷ []) second (0, b'+' ∷ [])
gdb_receive-append_example =
    gdb_receive-append (debug_exec port true) [] first second (0, []) (b'$' ∷ []) (0, b'+' ∷ [])
      (omega arith) (omega arith) received

read_text-length_example :
    HasLength port true 0 16 (read_text port true 0 4096 5 [])
    × (2 * 5 ≤ 16)
    × (16 ≤ 2 * 5 + 6)
    × ((16 ≡ 2 * 5) ↔ (5 % 4 ≡ 0))
read_text-length_example =
    read_text-length port true 0 4096 5 [] refl (omega arith) (omega arith)
      ((0x0102_0304, refl), ((0x0102_0304, refl), tt))

digit-hex_digit : (d : ℕ) → d < 16 → digit (hex_digit d) ≡ some d
digit-hex_digit d h = ground arith

parse-digit :
    (value c d : ℕ) (s : List ℕ) → digit c ≡ some d → parse value (c ∷ s) ≡ parse (value * 16 + d) s
parse-digit value c d s e =
    ap
      (λ o. elim o as (λ _. ℕ × List ℕ) [
        | none ↦ (value, c ∷ s)
        | some k ↦ parse (value * 16 + k) s
      ])
      e

reads_digits : (v : ℕ) → v < 256 → (port.strtoul (hex_digits 2 v)).0 ≡ v
unfolding hex_digits
reads_digits v h =
    let high = v / 16 % 16 in
    let low = v % 16 in
    ap (λ r. r.0)
      (parse-digit 0 (hex_digit high) high (hex_digit low ∷ []) (digit-hex_digit high (omega arith))
        ∙ parse-digit (0 * 16 + high) (hex_digit low) low [] (digit-hex_digit low (omega arith)))
    ∙ omega (arith, h)

-- The packet `?`, with a checksum that is right.
debug_exec-frame_example :
    (frame (b'?' ∷ []) ≡ packet (b'?' ∷ []) 0x3f)
    × (next_packet (packet (b'?' ∷ []) 0x3f ++ second) ≡ some (packet (b'?' ∷ []) 0x3f, second))
    × (debug_exec port true (packet (b'?' ∷ []) 0x3f) (1, [])
        ≡ answer port true reads_digits b'?' [] 0x3f (1, []))
debug_exec-frame_example =
    debug_exec-frame port true reads_digits b'?' [] second 0x3f 1 []
      (omega arith, omega arith, refl, tt) (omega arith)
