-- ===== src/Mips/Tlb.antt =====
-- The tlb: its entries as registers, the lookup, the probe, and the check for duplicates.
pub mod Lookup
pub mod Duplicates
use sys.Base.{
  ℕ, zero, suc, ◌+◌, ◌*◌, ◌/◌, ◌%◌, Bool, true, false, not, ◌&&◌, ◌||◌, ◌==◌, if◌then◌else◌, List,
  [], ◌∷◌, Option, none, some, get_elem?, set, bit_and, bit_or, u32, Outcome, ok, undefined, ◌>>=◌,
}
use sys.Base.Bits.{nonzero}
use sys.Mips.State.{MipsTlb, MipsCpu, CpuState, ntlb}

-- `TLB_PAGEFRAME`.
abbrev pub pageframe : ℕ
pageframe = 0xffff_f000

unfoldable pub reset_tlbentry : ℕ → MipsTlb
reset_tlbentry index = record {
  is_global = false;
  is_valid = false;
  is_dirty = false;
  is_nocache = false;
  pfn = 0;
  vpn = u32 (0x8100_0000 + index * 0x1000);
  pid = 0;
}

abbrev pub flag : Bool → ℕ → ℕ → ℕ
flag on bits val = if on then bit_or val bits else val

unfoldable pub tlbgetlo : MipsTlb → ℕ
tlbgetlo mt =
    flag mt.is_nocache 0x800
      (flag mt.is_dirty 0x400 (flag mt.is_valid 0x200 (flag mt.is_global 0x100 mt.pfn)))

unfoldable pub tlbgethi : MipsTlb → ℕ
tlbgethi mt = bit_or mt.vpn (u32 (mt.pid * 64))

unfoldable pub tlbsetlo : ℕ → MipsTlb → MipsTlb
tlbsetlo val mt = record mt {
  is_global = nonzero (bit_and val 0x100);
  is_valid = nonzero (bit_and val 0x200);
  is_dirty = nonzero (bit_and val 0x400);
  is_nocache = nonzero (bit_and val 0x800);
  pfn = bit_and val pageframe;
}

unfoldable pub tlbsethi : ℕ → MipsTlb → MipsTlb
tlbsethi val mt = record mt { vpn = bit_and val pageframe; pid = bit_and val 0xfc0 / 64 }

-- The test of `findtlb`, for the address space of `tlbentry`.
abbrev pub matches : ℕ → ℕ → MipsTlb → Bool
matches vpage pid mt = mt.vpn == vpage && (mt.pid == pid || mt.is_global)

-- The loop of `findtlb` from entry `i` on; the entry is returned with its index.
unfoldable pub findtlb_from : ℕ → ℕ → ℕ → List MipsTlb → Option (ℕ × MipsTlb)
findtlb_from vpage pid i [] = none
findtlb_from vpage pid i (mt ∷ rest) =
    if matches vpage pid mt then some (i, mt) else findtlb_from vpage pid (suc i) rest

unfoldable pub findtlb : ℕ → MipsCpu → Option (ℕ × MipsTlb)
unfolding findtlb_from
findtlb vpage cpu = findtlb_from vpage cpu.tlbentry.pid 0 cpu.tlb

unfoldable pub probetlb : MipsCpu → MipsCpu
unfolding findtlb
probetlb cpu = elim (findtlb cpu.tlbentry.vpn cpu) [
  | none ↦ record cpu { tlbpf = true }
  | some (ix, mt) ↦ record cpu { tlbindex = ix; tlbpf = false }
]

-- Would the two entries ever match at once?
abbrev pub clash : MipsTlb → MipsTlb → Bool
clash new old = new.vpn == old.vpn && (new.is_global || old.is_global || new.pid == old.pid)

-- The loop of `check_tlb_dups`, which hangs at each clash: the indices of the clashing entries.
unfoldable pub tlb_dups_from : MipsTlb → ℕ → ℕ → List MipsTlb → List ℕ
tlb_dups_from new newix i [] = []
tlb_dups_from new newix i (mt ∷ rest) =
    let later = tlb_dups_from new newix (suc i) rest in
    if i == newix then later else if clash new mt then i ∷ later else later

-- `hang` once for each clash.
unfoldable pub hang_each : {W : Type 0} → (W → W) → List ℕ → W → W
hang_each hang [] w = w
hang_each hang (i ∷ dups) w = hang_each hang dups (hang w)

-- `check_tlb_dups`, where the index is that of an entry.
unfoldable pub check_tlb_dups : {W : Type 0} → (W → W) → ℕ → MipsCpu → W → Outcome W
unfolding tlb_dups_from hang_each
check_tlb_dups hang newix cpu w = elim (get_elem? cpu.tlb newix) [
  | none ↦ undefined
  | some new ↦ ok (hang_each hang (tlb_dups_from new newix 0 cpu.tlb) w)
]
