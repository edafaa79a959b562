-- ===== src/Mips/Memory/Debug.antt =====
-- The debugger's translation agrees with the cpu's.
use sys.Base.{
  ℕ, ◌/◌, ◌^◌, ◌≡◌, refl, inl, inr, Bool, false, Bool-cases, ◌&&◌, not, ◌==◌, leb, Option-cases,
  bit_and,
}
use sys.Base.Bits.{nonzero}
use sys.Mips.State.{MipsTlb, MipsCpu}
use sys.Mips.Tlb.{pageframe, findtlb, findtlb_from}
use sys.Mips.Memory.{kernel_start, through, debug_through, translatemem, debug_translatemem}

through_debug :
    (mt : MipsTlb) (vaddr : ℕ) (iswrite : Bool) (cpu : MipsCpu)
    → (through mt vaddr iswrite cpu).0 ≡ debug_through mt vaddr iswrite
unfolding through debug_through
through_debug mt vaddr iswrite cpu = elim (Bool-cases mt.is_valid) [
  | inr invalid ↦ rw invalid refl
  | inl valid ↦ elim (Bool-cases (iswrite && not mt.is_dirty)) [
    | inl readonly ↦ rw (valid, readonly) refl
    | inr fine ↦ rw (valid, fine) refl
  ]
]

-- Where the cpu is in kernel mode or the address is one of the user's, `translatemem` finds the
-- physical address that `debug_translatemem` finds, and fails where that fails.
pub translatemem-debug_translatemem :
    (vaddr : ℕ) (iswrite : Bool) (cpu : MipsCpu)
    → (leb kernel_start vaddr && cpu.current_usermode) ≡ false
    → (translatemem vaddr iswrite cpu).0 ≡ debug_translatemem vaddr iswrite cpu
unfolding translatemem debug_translatemem findtlb
translatemem-debug_translatemem vaddr iswrite cpu allowed =
    elim (Bool-cases (nonzero (bit_and vaddr 3))) [
      | inl odd ↦ rw (odd, allowed) refl
      | inr even ↦ elim (Bool-cases (vaddr / 2 ^ 30 == 2)) [
        | inl direct ↦ rw (even, allowed, direct) refl
        | inr mapped ↦
            elim (Option-cases
              (findtlb_from (bit_and vaddr pageframe) cpu.tlbentry.pid 0 cpu.tlb)) [
                | inl miss ↦ rw (even, allowed, mapped, miss) refl
                | inr ((ix, mt), hit) ↦
                    rw (even, allowed, mapped, hit) (through_debug mt vaddr iswrite _)
              ]
      ]
    ]
