-- ===== src/Gdb/Memory.antt =====
-- The packets that read and write memory: `debug_read_mem`, `debug_write_mem`. The counters of the
-- loops do not wrap, as for lengths up to 2^32 - 4 in the code.
pub mod Replies
use sys.Base.{
  ℕ, zero, suc, ◌+◌, ◌-◌, ◌*◌, ◌/◌, ◌%◌, ◌^◌, Bool, true, false, not, ◌||◌, List, [], ◌∷◌, ◌++◌,
  Option, none, some, drop, length, ltb, ◌==◌, if◌then◌else◌, u32,
}
use sys.Gdb.{GdbPort}
use sys.Gdb.Text.{buflen, printbyte, printword, hexbyte, debug_send}

abbrev pub ok_text : List ℕ
ok_text = b'O' ∷ (b'K' ∷ [])

-- "E03".
abbrev pub fault_text : List ℕ
fault_text = b'E' ∷ (b'0' ∷ (b'3' ∷ []))

-- `ntohl(htoc32(v))` where the cpu is big-endian; its inverse where it is little-endian swaps the
-- bytes.
unfoldable pub swap_bytes : ℕ → ℕ
swap_bytes v =
    v % 2 ^ 8 * 2 ^ 24 + v / 2 ^ 8 % 2 ^ 8 * 2 ^ 16 + v / 2 ^ 16 % 2 ^ 8 * 2 ^ 8 + v / 2 ^ 24

abbrev pub memory_order : Bool → ℕ → ℕ
memory_order big v = if big then v else swap_bytes v

module _ {W : Type 0} (port : GdbPort W) (big : Bool) (debug_cpu : ℕ) where
  open port use {strtoul, fetch_byte, fetch_word, store_byte, store_word}

  -- The first loop of `debug_read_mem`, with `left` bytes to go: what is left, the next address and
  -- the text; a `none` where a fetch fails.
  unfoldable pub read_bytes : ℕ → ℕ → List ℕ → W → Option (ℕ × ℕ × List ℕ) × W
  read_bytes zero addr buf w = (some (0, addr, buf), w)
  read_bytes (suc left) addr buf w =
      let (byte, w') = fetch_byte debug_cpu addr w in
      let next : Option (ℕ × ℕ × List ℕ) × W = elim byte [
        | none ↦ (none, w')
        | some b ↦ read_bytes left (u32 (addr + 1)) (printbyte buflen b buf) w'
      ] in
      if addr % 4 == 0 then (some (suc left, addr, buf), w) else next

  -- The second loop, with `words` words to go.
  unfoldable pub read_words : ℕ → ℕ → List ℕ → W → Option (List ℕ) × W
  read_words zero addr buf w = (some buf, w)
  read_words (suc words) addr buf w =
      let (word, w') = fetch_word debug_cpu addr w in
      elim word [
        | none ↦ (none, w')
        | some v ↦ read_words words (u32 (addr + 4)) (printword buflen (memory_order big v) buf) w'
      ]

  -- The second loop on what the first has left.
  unfoldable pub read_rest : Option (ℕ × ℕ × List ℕ) × W → Option (List ℕ) × W
  unfolding read_words
  read_rest (none, w) = (none, w)
  read_rest (some (left, addr, buf), w) = read_words ((left + 3) / 4) addr buf w

  -- The loops together: the text of the reply.
  unfoldable pub read_text : ℕ → ℕ → W → Option (List ℕ) × W
  unfolding read_bytes read_rest printbyte printword
  read_text addr len w = read_rest (read_bytes len addr [] w)

  unfoldable pub debug_read_mem : List ℕ → W → W
  unfolding read_text debug_send
  debug_read_mem spec w =
      let (vaddr, behind) = strtoul spec in
      let len = u32 (strtoul (drop 1 behind)).0 in
      let (text, w') = read_text (u32 vaddr) len w in
      elim text [ none ↦ debug_send port fault_text w' | some s ↦ debug_send port s w' ]

  -- The bytes of the data.
  unfoldable pub hex_bytes : ℕ → List ℕ → List ℕ
  hex_bytes zero s = []
  hex_bytes (suc n) s = let (b, rest) = hexbyte port s in b ∷ hex_bytes n rest

  -- The first and the last loop of `debug_write_mem`: bytes, in the first only as long as the
  -- address is unaligned. They give the bytes that are left, or a `none`.
  unfoldable pub write_bytes : Bool → ℕ → List ℕ → W → Option (ℕ × List ℕ) × W
  write_bytes head addr [] w = (some (addr, []), w)
  write_bytes head addr (b ∷ rest) w =
      let (done, w') = store_byte debug_cpu addr b w in
      let next = write_bytes head (u32 (addr + 1)) rest w' in
      let stored : Option (ℕ × List ℕ) × W = elim done [ true ↦ next | false ↦ (none, w') ] in
      elim head [
        | true ↦ if addr % 4 == 0 then (some (addr, b ∷ rest), w) else stored
        | false ↦ stored
      ]

  -- The word at the head of four bytes in memory order, for the host.
  abbrev pub word_from : ℕ → ℕ → ℕ → ℕ → ℕ
  word_from a b c d =
      if big
      then a * 2 ^ 24 + b * 2 ^ 16 + c * 2 ^ 8 + d
      else d * 2 ^ 24 + c * 2 ^ 16 + b * 2 ^ 8 + a

  -- The second loop: words.
  unfoldable pub write_words : ℕ → List ℕ → W → Option (ℕ × List ℕ) × W
  write_words addr (a ∷ (b ∷ (c ∷ (d ∷ rest)))) w =
      let (done, w') = store_word debug_cpu addr (word_from a b c d) w in
      elim done [ true ↦ write_words (u32 (addr + 4)) rest w' | false ↦ (none, w') ]
  write_words addr rest w = (some (addr, rest), w)

  unfoldable pub write_data : ℕ → List ℕ → W → Bool × W
  unfolding write_bytes write_words
  write_data addr bytes w =
      let (first, w1) = write_bytes true addr bytes w in
      elim first [
        | none ↦ (false, w1)
        | some (addr1, bytes1) ↦
            let (second, w2) = write_words addr1 bytes1 w1 in
            elim second [
              | none ↦ (false, w2)
              | some (addr2, bytes2) ↦
                  let (third, w3) = write_bytes false addr2 bytes2 w2 in
                  elim third [ none ↦ (false, w3) | some r ↦ (true, w3) ]
            ]
      ]

  unfoldable pub debug_write_mem : List ℕ → W → W
  unfolding hex_bytes hexbyte write_data debug_send
  debug_write_mem spec w =
      let (vaddr, behind) = strtoul spec in
      let (len, behind') = strtoul (drop 1 behind) in
      let (done, w') = write_data (u32 vaddr) (hex_bytes (u32 len) (drop 1 behind')) w in
      debug_send port (if done then ok_text else fault_text) w'
