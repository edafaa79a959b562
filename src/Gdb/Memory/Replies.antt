-- ===== src/Gdb/Memory/Replies.antt =====
-- The length of the reply to a packet that reads memory.
use sys.Base.{
  ℕ, zero, suc, ◌+◌, ◌-◌, ◌*◌, ◌/◌, ◌%◌, ◌≤◌, ◌<◌, ◌≡◌, refl, sym, Bool, true, List, [], ◌∷◌, ◌++◌,
  Option, none, some, length, length-append, length-take, u32, ◌==◌, arith,
}
use mathlib.Core.Path.{subst}
use mathlib.Core.Logic.{◌↔◌}
use native.Mathlib.Nat.{zero-add}
use sys.Gdb.{GdbPort}
use sys.Gdb.Text.{buflen, hex_digits, hex_digit, printword}
use sys.Gdb.Memory.{memory_order, read_bytes, read_words, read_rest, read_text}

length-hex_digits : (n v : ℕ) → length (hex_digits n v) ≡ n
unfolding hex_digits
length-hex_digits zero v = refl
length-hex_digits (suc n) v = omega (
  arith,
  length-append (hex_digits n (v / 16)) (hex_digit (v % 16) ∷ []),
  length-hex_digits n (v / 16),
)

length-printword :
    (v : ℕ) (buf : List ℕ)
    → length buf + 8 < buflen
    → length (printword buflen v buf) ≡ length buf + 8
unfolding printword
length-printword v buf h = omega (
  arith,
  length-take (buflen - 1) (buf ++ hex_digits 8 v),
  length-append buf (hex_digits 8 v),
  length-hex_digits 8 v,
)

module _ {W : Type 0} (port : GdbPort W) (big : Bool) (debug_cpu : ℕ) where
  -- So many words from an address on can be read, and reading them changes nothing, as for memory.
  abbrev pub Readable : ℕ → ℕ → W → Type 0
  Readable zero addr w = Unit
  Readable (suc words) addr w =
      ((v : ℕ) × (port.fetch_word debug_cpu addr w ≡ (some v, w)))
      × Readable words (u32 (addr + 4)) w

  -- The reply has so many characters.
  abbrev pub HasLength : ℕ → Option (List ℕ) × W → Type 0
  HasLength n (none, w) = ⊥
  HasLength n (some text, w) = length text ≡ n

  -- A round of `read_words` on what was fetched.
  abbrev continue_with : ℕ → ℕ → List ℕ → Option ℕ × W → Option (List ℕ) × W
  continue_with words addr buf (o, w) = elim o [
    | none ↦ (none, w)
    | some v ↦
        read_words port big debug_cpu words (u32 (addr + 4))
          (printword buflen (memory_order big v) buf) w
  ]

  read_words-length :
      (words addr : ℕ) (buf : List ℕ) (w : W)
      → Readable words addr w
      → length buf + 8 * words < buflen
      → HasLength (length buf + 8 * words) (read_words port big debug_cpu words addr buf w)
  unfolding read_words
  read_words-length zero addr buf w mapped h = omega arith
  read_words-length (suc words) addr buf w ((v, is), mapped) h =
      let longer = length-printword (memory_order big v) buf (omega (arith, h)) in
      let same : length (printword buflen (memory_order big v) buf) + 8 * words
          ≡ length buf + 8 * suc words =
        omega (arith, longer) in
      subst (λ r. HasLength (length buf + 8 * suc words) (continue_with words addr buf r)) (sym is)
        (subst
          (λ n. HasLength n (
            read_words port big debug_cpu words (u32 (addr + 4))
              (printword buflen (memory_order big v) buf) w))
          same
          (read_words-length words (u32 (addr + 4)) (printword buflen (memory_order big v) buf) w
            mapped (omega (arith, longer, h))))

  read_bytes_aligned :
      (addr len : ℕ) (w : W)
      → addr % 4 ≡ 0
      → read_bytes port big debug_cpu (suc len) addr [] w ≡ (some (suc len, addr, []), w)
  unfolding read_bytes
  read_bytes_aligned addr len w aligned =
      let t : (addr % 4 == 0) ≡ true = ground (arith, aligned) in rw t refl

  -- At an aligned address from which on the words can be read, and for a length above 0 with
  -- 2 * length + 8 < 1024, the reply has whole words: it has the bytes that were asked for, two
  -- characters for each, only where their number is a multiple of four, and up to three bytes more
  -- otherwise.
  pub read_text-length :
      (addr len : ℕ) (w : W)
      → addr % 4 ≡ 0
      → 0 < len
      → 2 * len + 8 < buflen
      → Readable ((len + 3) / 4) addr w
      → HasLength (8 * ((len + 3) / 4)) (read_text port big debug_cpu addr len w)
        × (2 * len ≤ 8 * ((len + 3) / 4))
        × (8 * ((len + 3) / 4) ≤ 2 * len + 6)
        × ((8 * ((len + 3) / 4) ≡ 2 * len) ↔ (len % 4 ≡ 0))
  unfolding read_text read_rest
  read_text-length addr zero w aligned some_bytes small mapped = absurd (omega (arith, some_bytes))
  read_text-length addr (suc len) w aligned some_bytes small mapped = (
    subst (λ q. HasLength (8 * ((suc len + 3) / 4)) (read_rest port big debug_cpu q))
        (sym (read_bytes_aligned addr len w aligned))
        (subst (λ n. HasLength n (read_words port big debug_cpu ((suc len + 3) / 4) addr [] w))
          (zero-add (8 * ((suc len + 3) / 4)))
          (read_words-length ((suc len + 3) / 4) addr [] w mapped (omega (arith, small)))),
    omega arith,
    omega arith,
    ((λ e. omega (arith, e)), (λ e. omega (arith, e))),
  )
