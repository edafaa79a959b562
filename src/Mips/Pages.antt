-- ===== src/Mips/Pages.antt =====
-- The pages that instructions are fetched from, `mapmem`, `precompute_pc`, `precompute_nextpc`, and
-- what looks them up again: `do_rfe`, `phony_exception`, `writetlb`.
pub mod Found
use sys.Base.{
  ℕ, ◌+◌, Bool, true, false, if◌then◌else◌, none, some, bit_and, u32, get_elem?, set, Outcome, ok,
  smoke, undefined, ◌>>=◌,
}
use sys.Mips.State.{MipsCpu, ex_ibe}
use sys.Mips.Tlb.{pageframe, check_tlb_dups}
use sys.Mips.Exception.{exception}
use sys.Mips.Memory.{translatemem, Place, place}

-- What is at the pages of the host: the word at the pc, `bus_use_map(cpu->pcpage, cpu->pcoff)`, and
-- whether memory and the boot rom have a page, where the source has a pointer or NULL.
pub record Pages : Type 0 where
  pub pc_word : MipsCpu → ℕ
  pub bus_mem_map : ℕ → Bool
  pub bootrom_map : ℕ → Bool

-- `mapmem`: is there a page? None is mapped from the registers of the bus.
unfoldable pub mapmem : Pages → ℕ → Bool
unfolding place
mapmem pages paddr = elim (place (bit_and paddr pageframe)) [
  | Place.ram a ↦ pages.bus_mem_map a
  | Place.rom a ↦ pages.bootrom_map a
  | Place.io a ↦ false
]

-- `precompute_nextpc`, but for the page it keeps: true for the -1, with the exception taken. The
-- pages of the handler, which `exception` looks up, are there.
unfoldable pub precompute_nextpc : Pages → MipsCpu → Bool × MipsCpu
unfolding mapmem translatemem exception
precompute_nextpc pages cpu =
    let (r, cpu') = translatemem cpu.nextpc false cpu in
    elim r [
      | none ↦ (true, cpu')
      | some physnext ↦
          if mapmem pages physnext then (false, cpu') else (true, exception ex_ibe 0 0 cpu')
    ]

-- `precompute_pc`, likewise.
unfoldable pub precompute_pc : Pages → MipsCpu → Bool × MipsCpu
unfolding mapmem translatemem exception
precompute_pc pages cpu =
    let (r, cpu') = translatemem cpu.pc false cpu in
    elim r [
      | none ↦ (true, cpu')
      | some physpc ↦
          if mapmem pages physpc then (false, cpu') else (true, exception ex_ibe 0 0 cpu')
    ]

-- The two after each other, whatever the first finds.
unfoldable pub precompute : Pages → MipsCpu → MipsCpu
unfolding precompute_pc precompute_nextpc
precompute pages cpu = (precompute_nextpc pages (precompute_pc pages cpu).1).1

unfoldable pub do_rfe : Pages → MipsCpu → Outcome MipsCpu
unfolding precompute
do_rfe pages cpu =
    if cpu.current_usermode
    then smoke
    else ok (
        precompute pages (record cpu {
          current_usermode = cpu.prev_usermode;
          current_irqon = cpu.prev_irqon;
          prev_usermode = cpu.old_usermode;
          prev_irqon = cpu.old_irqon;
          in_jumpdelay = false;
          expc = cpu.pc;
        }))

-- A page that must be there.
abbrev pub must_find : Bool × MipsCpu → Outcome MipsCpu
must_find (fault, cpu) = if fault then smoke else ok cpu

unfoldable pub phony_exception : Pages → MipsCpu → Outcome MipsCpu
unfolding precompute_pc precompute_nextpc
phony_exception pages cpu =
    must_find (
      precompute_pc pages (record cpu {
        jumping = false;
        in_jumpdelay = false;
        pc = cpu.expc;
        nextpc = u32 (cpu.expc + 4);
      }))
    >>= λ cpu'. must_find (precompute_nextpc pages cpu')

-- `writetlb`; the exception that a lost page causes is taken.
unfoldable pub writetlb :
    {W : Type 0} → (W → W) → (W → Pages) → ℕ → MipsCpu × W → Outcome (MipsCpu × W)
unfolding check_tlb_dups precompute
writetlb hang pages ix (cpu, w) = elim (get_elem? cpu.tlb ix) [
  | none ↦ undefined
  | some old ↦
      let cpu' = record cpu { tlb = set cpu.tlb ix cpu.tlbentry } in
      check_tlb_dups hang ix cpu' w >>= λ w'. ok (precompute (pages w') cpu', w')
]
