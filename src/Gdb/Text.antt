-- ===== src/Gdb/Text.antt =====
-- Numbers in packets, and the sending of packets: `printbyte`, `printword`, `hexbyte`, `debug_send`.
use sys.Base.{
  ℕ, zero, suc, ◌+◌, ◌-◌, ◌/◌, ◌%◌, ◌^◌, List, [], ◌∷◌, ◌++◌, take, ltb, ◌==◌, if◌then◌else◌, u32,
}
use sys.Base.Ints.{ℤ, pos, negsuc, ◌+ℤ◌, tmod, word32}
use sys.Gdb.{GdbPort}

-- BUFLEN.
abbrev pub buflen : ℕ
buflen = 1024

-- The bytes of a string up to its end.
abbrev pub c_string : List ℕ → List ℕ
c_string [] = []
c_string (c ∷ s) = if c == 0 then [] else c ∷ c_string s

abbrev pub hex_digit : ℕ → ℕ
hex_digit d = if ltb d 10 then 48 + d else 87 + d

-- The lowest `n` digits of a number.
unfoldable pub hex_digits : ℕ → ℕ → List ℕ
hex_digits zero v = []
hex_digits (suc n) v = hex_digits n (v / 16) ++ hex_digit (v % 16) ∷ []

-- How many digits `%02x` prints for a word.
abbrev pub hex_width : ℕ → ℕ
hex_width v =
    if ltb v (16 ^ 2)
    then 2
    else if ltb v (16 ^ 3)
    then 3
    else if ltb v (16 ^ 4)
    then 4
    else if ltb v (16 ^ 5)
    then 5
    else if ltb v (16 ^ 6)
    then 6
    else if ltb v (16 ^ 7)
    then 7
    else 8

-- `printbyte` and `printword` into a buffer of `maxlen` bytes, which cut off what does not fit.
unfoldable pub printbyte : ℕ → ℕ → List ℕ → List ℕ
unfolding hex_digits
printbyte maxlen val buf = take (maxlen - 1) (buf ++ hex_digits (hex_width val) val)

unfoldable pub printword : ℕ → ℕ → List ℕ → List ℕ
unfolding hex_digits
printword maxlen val buf = take (maxlen - 1) (buf ++ hex_digits 8 val)

-- A `char`, which is signed, as the integer that it is promoted to.
abbrev pub char_value : ℕ → ℤ
char_value c = if ltb c 128 then pos c else negsuc (255 - c)

-- The sum of the bytes, in an `int`.
unfoldable pub checksum : List ℕ → ℤ
checksum [] = pos 0
checksum (c ∷ s) = char_value c +ℤ checksum s

-- "#%02x" with the sum modulo 256, which is negative where the sum is, in the seven characters
-- that `checkstr` has room for.
unfoldable pub check_text : List ℕ → List ℕ
unfolding checksum hex_digits
check_text s =
    let check = word32 (tmod (checksum s) (pos 256)) in
    take 7 (b'#' ∷ hex_digits (hex_width check) check)

-- What `debug_send` sends for a string.
unfoldable pub frame : List ℕ → List ℕ
unfolding check_text
frame s = b'$' ∷ (c_string s ++ check_text (c_string s))

module _ {W : Type 0} (port : GdbPort W) where
  -- `hexbyte`: the value of at most two characters, and what is behind them.
  unfoldable pub hexbyte : List ℕ → ℕ × List ℕ
  hexbyte [] = ((port.strtoul []).0 % 256, [])
  hexbyte (a ∷ []) =
      if a == 0 then ((port.strtoul []).0 % 256, a ∷ []) else ((port.strtoul (a ∷ [])).0 % 256, [])
  hexbyte (a ∷ (b ∷ s)) =
      if a == 0
      then ((port.strtoul []).0 % 256, a ∷ (b ∷ s))
      else if b == 0
      then ((port.strtoul (a ∷ [])).0 % 256, b ∷ s)
      else ((port.strtoul (a ∷ (b ∷ []))).0 % 256, s)

  -- `getthreadid`, in unsigned arithmetic.
  unfoldable pub getthreadid : List ℕ → ℕ
  unfolding hexbyte
  getthreadid s = u32 ((hexbyte s).0 + 2 ^ 32 - 10)

  unfoldable pub debug_send : List ℕ → W → W
  unfolding frame
  debug_send s w = port.write (frame s) w

  -- `debug_notsupp`, with its zero byte.
  unfoldable pub debug_notsupp : W → W
  debug_notsupp w = port.write (b'$' ∷ (0 ∷ (b'#' ∷ (b'0' ∷ (b'0' ∷ []))))) w

abbrev pub mkthreadid : ℕ → ℕ
mkthreadid cpunum = cpunum + 10
