-- ===== src/Mips/Alu/Products.antt =====
-- The products and quotients in `hi` and `lo`.
use sys.Base.{ℕ, ◌+◌, ◌-◌, ◌*◌, ◌^◌, ◌<◌, ◌≤◌, ltb, if◌then◌else◌}
use sys.Base.Ints.{ℤ, pos, negsuc, pos_part, neg_part}
use sys.Mips.State.{MipsCpu}
use sys.Mips.Pages.{Pages}

-- `hi` and `lo` as one number of 64 bits, and that as a signed integer.
abbrev pub hilo : MipsCpu → ℕ
hilo cpu = cpu.hi * 2 ^ 32 + cpu.lo

abbrev pub int64 : ℕ → ℤ
int64 x = if ltb x 0x8000_0000_0000_0000 then pos x else negsuc (0xffff_ffff_ffff_ffff - x)

-- A product of two integers that fit 32 bits fits 64.
abbrev Small : ℤ → Type 0
Small a = (pos_part a < 2 ^ 31) × (neg_part a ≤ 2 ^ 31)
