-- ===== src/Mips/Exception/Vectors.antt =====
-- The addresses of the handlers.
use sys.Base.{ℕ, ◌≡◌, ◌⊎◌, Bool, true, false, arith}
use sys.Mips.Exception.{vector}

-- The addresses at which the kernel handles exceptions.
abbrev pub AtVector : ℕ → Type 0
AtVector pc = (pc ≡ 0x8000_0000) ⊎ ((pc ≡ 0x8000_0080) ⊎ ((pc ≡ 0xbfc0_0100) ⊎ (pc ≡ 0xbfc0_0180)))

pub vector-AtVector : (boot : Bool) (code cn : ℕ) → AtVector (vector boot code cn)
unfolding vector
vector-AtVector true code cn = ground arith
vector-AtVector false code cn = ground arith
