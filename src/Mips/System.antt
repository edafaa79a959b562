-- ===== src/Mips/System.antt =====
-- The instructions of sys161/mipseb/mipscore.h on the system coprocessor, and those that only take
-- an exception; `mx_copz` decodes the former.
pub mod RandomWrite
pub mod Linked
use sys.Base.{
  ℕ, ◌+◌, ◌/◌, ◌^◌, false, not, ◌||◌, ◌==◌, if◌then◌else◌, List, [], ◌∷◌, none, some, ltb,
  get_elem?, bit_and, Outcome, ok, undefined, ◌>>=◌,
}
use sys.Base.Bits.{nonzero}
use sys.Mips.State.{MipsCpu, ex_sys, ex_bp, ex_ri, ex_cpu}
use sys.Mips.Tlb.{probetlb}
use sys.Mips.Exception.{exception, do_wait}
use sys.Mips.Memory.{Buses, translatemem}
use sys.Mips.Fields.{rt_of, rd_of, cn_of, sel_of, addr_of}
use sys.Mips.Registers.{domf, domt, reduce_random}
use sys.Mips.Pages.{Pages, do_rfe, writetlb}

-- What an instruction calls of the rest of the machine: memory and the bus, the pages that
-- instructions are fetched from, `hang`, and the macro RUNNING_MASK_OFF.
pub record Host (W : Type 0) : Type 0 where
  pub buses : Buses W
  pub pages : W → Pages
  pub hang : W → W
  pub running_mask_off : ℕ → W → W

-- The instructions that only take an exception.
unfoldable pub mx_syscall : ℕ → MipsCpu → MipsCpu
unfolding exception
mx_syscall insn cpu = exception ex_sys 0 0 cpu

unfoldable pub mx_break : ℕ → MipsCpu → MipsCpu
unfolding exception
mx_break insn cpu = exception ex_bp 0 0 cpu

unfoldable pub mx_ill : ℕ → MipsCpu → MipsCpu
unfolding exception
mx_ill insn cpu = exception ex_ri 0 0 cpu

unfoldable pub mx_bcf : ℕ → MipsCpu → MipsCpu
unfolding exception
mx_bcf insn cpu = exception ex_cpu (cn_of insn) 0 cpu

unfoldable pub mx_bct : ℕ → MipsCpu → MipsCpu
unfolding exception
mx_bct insn cpu = exception ex_cpu (cn_of insn) 0 cpu

unfoldable pub mx_cf : ℕ → MipsCpu → MipsCpu
unfolding exception
mx_cf insn cpu = exception ex_cpu (cn_of insn) 0 cpu

unfoldable pub mx_ct : ℕ → MipsCpu → MipsCpu
unfolding exception
mx_ct insn cpu = exception ex_cpu (cn_of insn) 0 cpu

-- `mx_lwc` with `dolwc`, and `mx_swc` with `doswc`: no other coprocessor is there.
unfoldable pub mx_lwc : ℕ → MipsCpu → MipsCpu
unfolding exception
mx_lwc insn cpu = exception ex_cpu (cn_of insn) 0 cpu

unfoldable pub mx_swc : ℕ → MipsCpu → MipsCpu
unfolding exception
mx_swc insn cpu = exception ex_cpu (cn_of insn) 0 cpu

-- `mx_sync`, but for the statistics.
unfoldable pub mx_sync : ℕ → MipsCpu → MipsCpu
mx_sync insn cpu = cpu

-- `mx_cache`: the caches are not simulated, and only an address is translated.
unfoldable pub mx_cache : ℕ → MipsCpu → MipsCpu
unfolding exception translatemem
mx_cache insn cpu =
    if cpu.current_usermode
    then exception ex_cpu 0 0 cpu
    else if ltb (bit_and (rt_of insn) 7) 4
    then cpu
    else (translatemem (addr_of insn cpu) false cpu).1

unfoldable pub mx_mf : ℕ → MipsCpu → MipsCpu
unfolding domf
mx_mf insn cpu = domf (cn_of insn) (rd_of insn) (sel_of insn) (rt_of insn) cpu

unfoldable pub mx_tlbp : ℕ → MipsCpu → MipsCpu
unfolding probetlb
mx_tlbp insn cpu = probetlb cpu

-- `mx_tlbr`, where the index is that of an entry.
unfoldable pub mx_tlbr : ℕ → MipsCpu → Outcome MipsCpu
mx_tlbr insn cpu = elim (get_elem? cpu.tlb cpu.tlbindex) [
  | none ↦ undefined
  | some mt ↦ ok (record cpu { tlbentry = mt })
]

-- `bc0f` or `bc0t`, as `mx_copz` picks one.
unfoldable pub mx_bc : ℕ → MipsCpu → MipsCpu
unfolding mx_bcf mx_bct
mx_bc insn cpu = if nonzero (bit_and insn 0x0001_0000) then mx_bcf insn cpu else mx_bct insn cpu

-- A `switch` as the list of its cases, and the default.
unfoldable pub switch : {A : Type 0} → ℕ → List (ℕ × A) → A → A
switch op [] d = d
switch op ((k, a) ∷ cases) d = let rest = switch op cases d in if op == k then a else rest

-- What an instruction does to the cpu and the rest of the machine.
abbrev pub Insn : Type 0 → Type 0
Insn W = ℕ → MipsCpu × W → Outcome (MipsCpu × W)

-- An instruction on the cpu alone, one that may be undefined, and one that uses the pages.
abbrev pub pure : {W : Type 0} → (ℕ → MipsCpu → MipsCpu) → Insn W
pure f insn (cpu, w) = ok (f insn cpu, w)

abbrev pub partial : {W : Type 0} → (ℕ → MipsCpu → Outcome MipsCpu) → Insn W
partial f insn (cpu, w) = f insn cpu >>= λ cpu'. ok (cpu', w)

abbrev pub paged : {W : Type 0} → (W → Pages) → (Pages → ℕ → MipsCpu → MipsCpu) → Insn W
paged pages f insn (cpu, w) = ok (f (pages w) insn cpu, w)

-- An instruction that can be put off, and looks up the pages of the pc then.
abbrev pub stalling : {W : Type 0} → (W → Pages) → (Pages → ℕ → MipsCpu → Outcome MipsCpu) → Insn W
stalling pages f insn (cpu, w) = f (pages w) insn cpu >>= λ cpu'. ok (cpu', w)

module _ {W : Type 0} (host : Host W) where
  open host use {hang, pages, running_mask_off}

  unfoldable pub mx_mt : Insn W
  unfolding domt
  mx_mt insn (cpu, w) =
      ok (domt hang (cn_of insn) (rd_of insn) (sel_of insn) (cpu.r (rt_of insn)) (cpu, w))

  unfoldable pub mx_tlbwi : Insn W
  unfolding writetlb
  mx_tlbwi insn (cpu, w) = writetlb hang pages cpu.tlbindex (cpu, w)

  unfoldable pub mx_tlbwr : Insn W
  unfolding writetlb
  mx_tlbwr insn (cpu, w) =
      let cpu' = reduce_random cpu in writetlb hang pages (cpu'.tlbrandom + 8) (cpu', w)

  unfoldable pub mx_rfe : Insn W
  unfolding do_rfe
  mx_rfe insn (cpu, w) = do_rfe (pages w) cpu >>= λ cpu'. ok (cpu', w)

  unfoldable pub mx_wait : Insn W
  unfolding do_wait
  mx_wait insn s = ok (do_wait running_mask_off s)

  -- The operations of the system coprocessor, by the function field.
  unfoldable pub cop0_ops : List (ℕ × Insn W)
  unfolding mx_tlbr mx_tlbwi mx_tlbwr mx_tlbp mx_rfe mx_wait
  cop0_ops =
      (1, partial mx_tlbr)
      ∷ (2, mx_tlbwi)
      ∷ (6, mx_tlbwr)
      ∷ (8, pure mx_tlbp)
      ∷ (16, mx_rfe)
      ∷ (32, mx_wait)
      ∷ []

  -- The moves to and from it, and the branches on it.
  unfoldable pub cop0_moves : List (ℕ × Insn W)
  unfolding mx_mf mx_cf mx_mt mx_ct mx_bc
  cop0_moves =
      (0, pure mx_mf)
      ∷ (2, pure mx_cf)
      ∷ (4, mx_mt)
      ∷ (6, pure mx_ct)
      ∷ (8, pure mx_bc)
      ∷ (12, pure mx_bc)
      ∷ []

  unfoldable pub mx_copz : Insn W
  unfolding exception switch cop0_ops cop0_moves mx_ill
  mx_copz insn (cpu, w) =
      let copop = bit_and insn 0x03e0_0000 / 2 ^ 21 in
      if not (cn_of insn == 0) || cpu.current_usermode
      then ok (exception ex_cpu (cn_of insn) 0 cpu, w)
      else if nonzero (bit_and copop 0x10)
      then switch (bit_and insn 0x01ff_ffff) cop0_ops (pure mx_ill) insn (cpu, w)
      else switch copop cop0_moves (pure mx_ill) insn (cpu, w)
