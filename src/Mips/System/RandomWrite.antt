-- ===== src/Mips/System/RandomWrite.antt =====
-- `tlbwr`: which entries it can replace.
use sys.Base.{
  ℕ, ◌+◌, ◌%◌, ◌<◌, ◌≤◌, ◌≡◌, some, get_elem?, set, length, length-set, get_elem?-set_self,
  get_elem?-set_ne, Returns, arith, ◌∙◌,
}
use sys.Mips.State.{MipsCpu, ntlb}
use sys.Mips.Tlb.{hang_each, tlb_dups_from}
use sys.Mips.Pages.Found.{precompute-tlb}
use sys.Mips.Tlb.Duplicates.{writetlb_result}
use sys.Mips.Registers.{reduce_random}
use sys.Mips.System.{Host, mx_tlbwr}

-- With a tlb of 64 entries, tlbwr writes the entry into one of the places from 8 to 63, and
-- leaves the first eight entries and the size as they were.
pub mx_tlbwr_lem :
    {W : Type 0} (host : Host W) (insn : ℕ) (cpu : MipsCpu) (w : W)
    → length cpu.tlb ≡ ntlb
    → Returns (mx_tlbwr host insn (cpu, w)) (λ (c, w').
      (length c.tlb ≡ ntlb)
      × ((i : ℕ) → i < 8 → get_elem? c.tlb i ≡ get_elem? cpu.tlb i)
      × ((j : ℕ) × (8 ≤ j) × (j < ntlb) × (get_elem? c.tlb j ≡ some cpu.tlbentry)))
unfolding mx_tlbwr
mx_tlbwr_lem host insn cpu w full =
    let ix = cpu.tlbrandom % 56 + 8 in
    let new = cpu.tlbentry in
    let inside : ix < length cpu.tlb = omega (arith, full) in
    let w' = hang_each host.hang (tlb_dups_from new ix 0 (set cpu.tlb ix new)) w in
    rw
      (
        writetlb_result host.hang host.pages ix (reduce_random cpu) w inside,
        precompute-tlb (host.pages w') (record (reduce_random cpu) { tlb = set cpu.tlb ix new }),
      )
      (
        length-set cpu.tlb ix new ∙ full,
        (λ i low. get_elem?-set_ne cpu.tlb new (λ e. omega arith)),
        (ix, omega arith, omega arith, get_elem?-set_self cpu.tlb ix new inside),
      )
