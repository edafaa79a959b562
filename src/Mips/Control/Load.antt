-- ===== src/Mips/Control/Load.antt =====
-- Where the boot loader puts the kernel: `cpu_get_load_paddr` and `cpu_get_load_vaddr`.
use sys.Base.{ℕ, ◌+◌, ◌-◌, ◌%◌, ◌^◌, ◌<◌, ◌≤◌, ◌≡◌, ◌⊎◌, some, arith}
use sys.Mips.Control.{cpu_get_load_paddr, cpu_get_load_vaddr}

some_injective : {a b : ℕ} → some a ≡ some b → a ≡ b
some_injective e = cc

-- A block of 32-bit address and size that cpu_get_load_paddr accepts lies in the segments that
-- are mapped directly, and is put at the offset in its segment; or it lies behind them and runs
-- over the end of the 32-bit addresses, and is put where none of the two segments reaches.
pub load_paddr_lem :
    (vaddr size paddr : ℕ)
    → vaddr < 2 ^ 32
    → size < 2 ^ 32
    → cpu_get_load_paddr vaddr size ≡ some paddr
    → ((0x8000_0000 ≤ vaddr) × (vaddr + size < 0xc000_0000) × (paddr ≡ vaddr % 2 ^ 29))
      ⊎ ((0xc000_0000 ≤ vaddr) × (2 ^ 32 ≤ vaddr + size) × (paddr ≡ vaddr - 0xa000_0000))
unfolding cpu_get_load_paddr
load_paddr_lem vaddr size paddr hv hs h = ground arith

load_vaddr_lem :
    (paddr size vaddr : ℕ)
    → paddr < 2 ^ 29
    → cpu_get_load_vaddr paddr size ≡ some vaddr
    → cpu_get_load_paddr vaddr size ≡ some paddr
unfolding cpu_get_load_vaddr cpu_get_load_paddr
load_vaddr_lem paddr size vaddr hp h = ground arith
