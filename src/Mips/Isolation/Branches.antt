-- ===== src/Mips/Isolation/Branches.antt =====
-- Branches in user mode.
use sys.Base.{ℕ, Bool, true, false, ◌==◌, if◌then◌else◌, Option, none, some, bit_and}
use sys.Base.Bits.{nonzero}
use sys.Mips.State.{MipsCpu, ex_ibe, ex_adel}
use sys.Mips.Exception.{exception}
use sys.Mips.Memory.{translatemem}
use sys.Mips.Pages.{Pages, mapmem, precompute_nextpc}
use sys.Mips.Branch.{abranch, ibranch, rbranch, branch_if, fullop_rfe}
use sys.Mips.Memory.Translation.{Translated}
use sys.Mips.Isolation.{Kernel, Modes, Guarded, Alike, Alike-Guarded, exception-Guarded}
use sys.Mips.Isolation.Access.{Accessed, translatemem-Accessed}

module _ (k : Kernel) (m : Modes) (pages : Pages) where
  precompute_nextpc-Guarded :
      (cpu : MipsCpu) → Alike k m cpu → Guarded k m (precompute_nextpc pages cpu).1
  unfolding precompute_nextpc Accessed Translated
  precompute_nextpc-Guarded cpu h =
      go (translatemem cpu.nextpc false cpu) (translatemem-Accessed k m cpu.nextpc false cpu h)
    where
      mapped :
          (b : Bool) (c : MipsCpu)
          → Alike k m c
          → Guarded k m
              (if◌then◌else◌ {A = Bool × MipsCpu} b (false, c) (true, exception ex_ibe 0 0 c)).1
      mapped true c p = Alike-Guarded k m c p
      mapped false c p = exception-Guarded k m ex_ibe 0 0 c p

      go :
          (t : Option ℕ × MipsCpu)
          → Accessed k m t
          → (let r : Bool × MipsCpu = elim t.0 [
            | none ↦ (true, t.1)
            | some physnext ↦
                if mapmem pages physnext then (false, t.1) else (true, exception ex_ibe 0 0 t.1)
          ] in
              Guarded k m r.1)
      go (none, c) p = p
      go (some physnext, c) p = mapped (mapmem pages physnext) c p

  pub abranch-Guarded :
      (addr : ℕ) (cpu : MipsCpu) → Alike k m cpu → Guarded k m (abranch pages addr cpu)
  unfolding abranch
  abranch-Guarded addr cpu h =
      let cpu' : MipsCpu = record cpu { nextpc = addr; jumping = true } in
      go (nonzero (bit_and addr 3)) (pages.pc_word cpu' == fullop_rfe)
    where
      go :
          (misaligned rfe : Bool)
          → Guarded k m (
              if misaligned
              then exception ex_adel 0 addr cpu
              else if rfe
              then record cpu { nextpc = addr; jumping = true }
              else (precompute_nextpc pages (record cpu { nextpc = addr; jumping = true })).1)
      go true rfe = exception-Guarded k m ex_adel 0 addr cpu h
      go false true = Alike-Guarded k m (record cpu { nextpc = addr; jumping = true }) h
      go false false = precompute_nextpc-Guarded (record cpu { nextpc = addr; jumping = true }) h

  pub ibranch-Guarded :
      (imm : ℕ) (cpu : MipsCpu) → Alike k m cpu → Guarded k m (ibranch pages imm cpu)
  unfolding ibranch
  ibranch-Guarded imm cpu h = abranch-Guarded _ cpu h

  pub branch_if-Guarded :
      (taken : Bool) (insn : ℕ) (cpu : MipsCpu)
      → Alike k m cpu
      → Guarded k m (branch_if pages taken insn cpu)
  unfolding branch_if rbranch
  branch_if-Guarded true insn cpu h = abranch-Guarded _ cpu h
  branch_if-Guarded false insn cpu h = Alike-Guarded k m cpu h
