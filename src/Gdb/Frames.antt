-- ===== src/Gdb/Frames.antt =====
-- Taking packets out of the stream: the loop of `gdb_receive`.
pub mod Chunks
use sys.Base.{
  ℕ, zero, suc, ◌+◌, ◌-◌, Bool, true, false, List, [], ◌∷◌, ◌++◌, Option, none, some, length, take,
  drop, ltb, leb, ◌==◌, if◌then◌else◌, Outcome, ok, smoke, out_of_fuel, ◌>>=◌,
}
use sys.Gdb.Text.{buflen}

-- `memchr`: what begins with the first `c`.
unfoldable pub memchr : ℕ → List ℕ → Option (List ℕ)
memchr c [] = none
memchr c (x ∷ l) = let rest = memchr c l in if x == c then some (x ∷ l) else rest

-- A packet and what is behind it, from what begins with its `$` and what begins with its `#`; a
-- `none` where the two digits behind that are not there yet.
unfoldable pub complete : List ℕ → Option (List ℕ) → Option (List ℕ × List ℕ)
complete packet none = none
complete packet (some hash) =
    let packetlen = length packet - length hash + 3 in
    if ltb (length packet) packetlen
    then none
    else some (take packetlen packet, drop packetlen packet)

unfoldable pub starting : Option (List ℕ) → Option (List ℕ × List ℕ)
unfolding complete memchr
starting none = none
starting (some packet) = complete packet (memchr b'#' packet)

-- The first packet in the buffer, from its `$` to the two digits behind its `#`, and what is behind
-- it; a `none` where there is none that is complete.
unfoldable pub next_packet : List ℕ → Option (List ℕ × List ℕ)
unfolding memchr starting
next_packet buf = starting (memchr b'$' buf)

-- The loop, on fuel, with what `debug_exec` does with each packet. The buffer for a packet has one
-- byte more than the buffer of the connection.
module _ {S : Type 0} (debug_exec : List ℕ → S → Outcome S) where
  unfoldable pub packets_from : ℕ → List ℕ → S → Outcome (List ℕ × S)
  unfolding next_packet
  packets_from zero buf s = out_of_fuel
  packets_from (suc fuel) buf s = elim (next_packet buf) [
    | none ↦ ok (buf, s)
    | some (packet, rest) ↦
        if leb (buflen + 1) (length packet + 1)
        then smoke
        else (debug_exec packet s >>= λ s'. packets_from fuel rest s')
  ]

  -- `gdb_receive` once the bytes are read: an input buffer that was full is thrown away first. Each
  -- packet takes at least four bytes from the buffer.
  unfoldable pub gdb_receive : List ℕ → List ℕ → S → Outcome (List ℕ × S)
  unfolding packets_from
  gdb_receive buf bytes s =
      let kept = if leb buflen (length buf) then [] else buf in
      packets_from (length (kept ++ bytes) + 1) (kept ++ bytes) s
