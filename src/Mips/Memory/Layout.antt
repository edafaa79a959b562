-- ===== src/Mips/Memory/Layout.antt =====
-- The layout of physical memory.
use sys.Base.{ℕ, ◌-◌, ◌*◌, ◌<◌, ◌^◌, ◌≡◌, arith}
use sys.Mips.Memory.{Place, place}

-- Two physical addresses that reach the same word of memory, of the boot rom or of the bus are
-- the same address.
place_injective : (a b : ℕ) → place a ≡ place b → a ≡ b
unfolding place
place_injective a b e = ground arith

-- From 32-bit addresses the boot rom is reached with offsets below 2 MB, the bus with offsets below 2 MB, which are 32
-- slots of 64 KB; the memory at the top of the 32-bit addresses ends 4 MB below.
place_bounds :
    (paddr o : ℕ)
    → paddr < 2 ^ 32
    → (place paddr ≡ Place.rom o → o < 2 ^ 21)
      × (place paddr ≡ Place.io o → o < 32 * 2 ^ 16)
      × (place paddr ≡ Place.ram o → o < 2 ^ 32 - 2 ^ 22)
unfolding place
place_bounds paddr o small = (λ e. ground arith, λ e. ground arith, λ e. ground arith)
