-- ===== src/Mips/Memory/Translation.antt =====
-- What a translation leaves of the cpu: where `P` holds before, it holds after one that succeeds, and
-- after one that fails holds what an exception makes of it.
use sys.Base.{
  ℕ, ◌/◌, ◌^◌, ◌==◌, Bool, true, false, if◌then◌else◌, Option, none, some, not, ◌&&◌, ◌||◌, ltb,
  leb, bit_and, bit_or,
}
use sys.Base.Bits.{nonzero}
use sys.Mips.State.{MipsTlb, MipsCpu, ex_tlbs, ex_tlbl, ex_mod, ex_ades, ex_adel}
use sys.Mips.Tlb.{findtlb, pageframe}
use sys.Mips.Exception.{exception}
use sys.Mips.Memory.{translatemem, through, kernel_start}

unfoldable pub Translated : (P Q : MipsCpu → Type 0) → Option ℕ × MipsCpu → Type 0
Translated P Q (none, cpu) = Q cpu
Translated P Q (some a, cpu) = P cpu

module _ (P Q : MipsCpu → Type 0)
    (looked_up : (mt : MipsTlb) (cpu : MipsCpu) → P cpu → P (record cpu { tlbentry = mt }))
    (trapped : (code cn vaddr : ℕ) (cpu : MipsCpu) → P cpu → Q (exception code cn vaddr cpu)) where
  failed :
      (code cn vaddr : ℕ) (cpu : MipsCpu)
      → P cpu
      → Translated P Q (none, exception code cn vaddr cpu)
  unfolding Translated
  failed code cn vaddr cpu h = trapped code cn vaddr cpu h

  reached : (a : ℕ) (cpu : MipsCpu) → P cpu → Translated P Q (some a, cpu)
  unfolding Translated
  reached a cpu h = h

  through-Translated :
      (mt : MipsTlb) (vaddr : ℕ) (iswrite : Bool) (cpu : MipsCpu)
      → P cpu
      → Translated P Q (through mt vaddr iswrite cpu)
  unfolding through
  through-Translated mt vaddr iswrite cpu h = go mt.is_valid (iswrite && not mt.is_dirty)
    where
      go :
          (valid unwritable : Bool)
          → Translated P Q (
              if not valid
              then (none, exception (if iswrite then ex_tlbs else ex_tlbl) 0 vaddr cpu)
              else if unwritable
              then (none, exception ex_mod 0 vaddr cpu)
              else (some (bit_or mt.pfn (bit_and vaddr 0xfff)), cpu))
      go false unwritable = failed (if iswrite then ex_tlbs else ex_tlbl) 0 vaddr cpu h
      go true true = failed ex_mod 0 vaddr cpu h
      go true false = reached (bit_or mt.pfn (bit_and vaddr 0xfff)) cpu h

  found-Translated :
      (vaddr : ℕ) (iswrite : Bool) (cpu : MipsCpu) (o : Option (ℕ × MipsTlb))
      → P cpu
      → Translated P Q (elim o [
        | none ↦ (
          none,
          exception
              (if iswrite then ex_tlbs else ex_tlbl)
              (if ltb vaddr kernel_start then 1 else 0)
              vaddr
              cpu,
        )
        | some (ix, mt) ↦ through mt vaddr iswrite cpu
      ])
  found-Translated vaddr iswrite cpu none h = failed _ _ _ cpu h
  found-Translated vaddr iswrite cpu (some (ix, mt)) h = through-Translated mt vaddr iswrite cpu h

  pub translatemem-Translated :
      (vaddr : ℕ) (iswrite : Bool) (cpu : MipsCpu)
      → P cpu
      → Translated P Q (translatemem vaddr iswrite cpu)
  unfolding translatemem
  translatemem-Translated vaddr iswrite cpu h =
      let vpage = bit_and vaddr pageframe in
      let cpu' : MipsCpu = record cpu { tlbentry = record cpu.tlbentry { vpn = vpage } } in
      go ((leb kernel_start vaddr && cpu.current_usermode) || nonzero (bit_and vaddr 3))
        (vaddr / 2 ^ 30 == 2) _
        (found-Translated vaddr iswrite cpu' (findtlb vpage cpu') (looked_up _ cpu h))
    where
      go :
          (misplaced direct : Bool) (r : Option ℕ × MipsCpu)
          → Translated P Q r
          → Translated P Q (
              if misplaced
              then (none, exception (if iswrite then ex_ades else ex_adel) 0 vaddr cpu)
              else if direct
              then (some (bit_and vaddr 0x1fff_ffff), cpu)
              else r)
      go true direct r p = failed (if iswrite then ex_ades else ex_adel) 0 vaddr cpu h
      go false true r p = reached (bit_and vaddr 0x1fff_ffff) cpu h
      go false false r p = p
