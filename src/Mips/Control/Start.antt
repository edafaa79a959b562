-- ===== src/Mips/Control/Start.antt =====
-- A cpu as it starts.
use sys.Base.{
  ℕ, zero, suc, ◌+◌, ◌<◌, ◌≡◌, ◌≢◌, refl, ap, ap₂, sym, ◌∙◌, false, none, some, get_elem?, length,
  arith,
}
use sys.Mips.State.{MipsTlb, ntlb}
use sys.Mips.Tlb.{reset_tlbentry, clash}
use sys.Mips.Tlb.Duplicates.{NoDups, apart}
use sys.Mips.Control.{reset_tlb, mips_init}

not_found : {a : MipsTlb} → none ≡ some a → ⊥
not_found e = cc

some_injective : {a b : MipsTlb} → some a ≡ some b → a ≡ b
some_injective e = cc

reset_tlb_entry :
    (n i j : ℕ) (mt : MipsTlb)
    → get_elem? (reset_tlb n i) j ≡ some mt
    → (j < n) × (mt ≡ reset_tlbentry (i + j))
unfolding reset_tlb
reset_tlb_entry zero i j mt h = absurd (not_found h)
reset_tlb_entry (suc n) i zero mt h =
    (omega arith, sym (some_injective h) ∙ ap reset_tlbentry (omega arith))
reset_tlb_entry (suc n) i (suc j) mt h =
    let (lt, same) = reset_tlb_entry n (suc i) j mt h in
    (omega arith, same ∙ ap reset_tlbentry (omega arith))

reset_apart :
    (i j : ℕ) → i < 64 → j < 64 → i ≢ j → clash (reset_tlbentry i) (reset_tlbentry j) ≡ false
unfolding reset_tlbentry
reset_apart i j hi hj ne = ground arith

-- After mips_init the tlb has 64 entries, no two of them match at once, and none is valid.
mips_init_lem :
    (cpunum : ℕ)
    → let cpu = mips_init cpunum in
      (length cpu.tlb ≡ ntlb)
      × NoDups cpu.tlb
      × ((j : ℕ) (mt : MipsTlb) → get_elem? cpu.tlb j ≡ some mt → mt.is_valid ≡ false)
unfolding mips_init reset_tlb
mips_init_lem cpunum = (
  refl,
  (λ i j mi mj hi hj ne.
      let (li, ei) = reset_tlb_entry ntlb 0 i mi hi in
      let (lj, ej) = reset_tlb_entry ntlb 0 j mj hj in
      apart mi mj (
        ap₂ clash ei ej
        ∙ reset_apart (0 + i) (0 + j) (omega arith) (omega arith) (λ e. ne (omega (arith, e))))),
  (λ j mt h. ap (λ mt. mt.is_valid) (reset_tlb_entry ntlb 0 j mt h).1),
)
