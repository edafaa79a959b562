-- ===== src/Mips/LoadStore/Masks.antt =====
-- The masks and shifts of `doload` and `dostore`, by the place of an address in its word.
use sys.Base.{ℕ, ◌*◌, ◌/◌, ◌^◌, Bool, true, false, ◌==◌, if◌then◌else◌, bit_and, bit_or, u32}
use sys.Base.Bits.{bit_not}
use sys.Mips.Fields.{sext8, sext16}

-- `memstyles`.
pub data MemStyle : Type 0 where
  s_sbyte s_ubyte s_shalf s_uhalf s_wordl s_wordr : MemStyle

-- A `switch (addr & 3)`.
abbrev pub by_byte {ℓ} : {A : Type ℓ} → ℕ → A → A → A → A → A
by_byte addr a b c d =
    let place = bit_and addr 3 in
    if place == 0 then a else if place == 1 then b else if place == 2 then c else d

-- A `switch (addr & 2)`.
abbrev pub by_half {ℓ} : {A : Type ℓ} → ℕ → A → A → A
by_half addr a b = if bit_and addr 2 == 0 then a else b

-- The address that is read: for half a word the lowest bit stays, and is refused later.
unfoldable pub word_of : MemStyle → ℕ → ℕ
word_of s_sbyte addr = bit_and addr 0xffff_fffc
word_of s_ubyte addr = bit_and addr 0xffff_fffc
word_of s_shalf addr = bit_and addr 0xffff_fffd
word_of s_uhalf addr = bit_and addr 0xffff_fffd
word_of s_wordl addr = bit_and addr 0xffff_fffc
word_of s_wordr addr = bit_and addr 0xffff_fffc

abbrev pub byte_at : ℕ → ℕ → ℕ
byte_at addr val =
    by_byte addr (bit_and val 0xff00_0000 / 2 ^ 24) (bit_and val 0x00ff_0000 / 2 ^ 16)
      (bit_and val 0xff00 / 2 ^ 8) (bit_and val 0xff)

abbrev pub half_at : ℕ → ℕ → ℕ
half_at addr val = by_half addr (bit_and val 0xffff_0000 / 2 ^ 16) (bit_and val 0xffff)

-- `(old & ~mask) | (new & mask)`.
abbrev pub merge : ℕ → ℕ → ℕ → ℕ
merge mask old new = bit_or (bit_and old (bit_not mask)) (bit_and new mask)

-- What `doload` puts into a register that had `old`, from the word `val`.
unfoldable pub loaded : MemStyle → ℕ → ℕ → ℕ → ℕ
loaded s_sbyte addr old val = sext8 (byte_at addr val)
loaded s_ubyte addr old val = byte_at addr val
loaded s_shalf addr old val = sext16 (half_at addr val)
loaded s_uhalf addr old val = half_at addr val
loaded s_wordl addr old val =
    merge (by_byte addr 0xffff_ffff 0xffff_ff00 0xffff_0000 0xff00_0000) old
      (u32 (val * 2 ^ by_byte addr 0 8 16 24))
loaded s_wordr addr old val =
    merge (by_byte addr 0xff 0xffff 0x00ff_ffff 0xffff_ffff) old (val / 2 ^ by_byte addr 24 16 8 0)

-- The styles that `dostore` has; it aborts at another.
unfoldable pub stores : MemStyle → Bool
stores s_sbyte = false
stores s_ubyte = true
stores s_shalf = false
stores s_uhalf = true
stores s_wordl = true
stores s_wordr = true

-- What `dostore` makes of the word `wval` where `val` is stored.
unfoldable pub stored : MemStyle → ℕ → ℕ → ℕ → ℕ
stored s_sbyte addr val wval = wval
stored s_ubyte addr val wval =
    bit_or (bit_and wval (bit_not (by_byte addr 0xff00_0000 0x00ff_0000 0xff00 0xff)))
      (u32 (bit_and val 0xff * 2 ^ by_byte addr 24 16 8 0))
stored s_shalf addr val wval = wval
stored s_uhalf addr val wval =
    bit_or (bit_and wval (bit_not (by_half addr 0xffff_0000 0xffff)))
      (u32 (bit_and val 0xffff * 2 ^ by_half addr 16 0))
stored s_wordl addr val wval =
    merge (by_byte addr 0xffff_ffff 0x00ff_ffff 0xffff 0xff) wval (val / 2 ^ by_byte addr 0 8 16 24)
stored s_wordr addr val wval =
    merge (by_byte addr 0xff00_0000 0xffff_0000 0xffff_ff00 0xffff_ffff) wval
      (u32 (val * 2 ^ by_byte addr 24 16 8 0))
