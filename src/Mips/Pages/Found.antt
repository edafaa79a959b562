-- ===== src/Mips/Pages/Found.antt =====
-- What looking up the pages of the pc leaves of the cpu.
use sys.Base.{
  ℕ, ◌+◌, u32, ◌≡◌, refl, Bool, true, false, if◌then◌else◌, Option, none, some, Ensures,
  Ensures->>=,
}
use sys.Mips.State.{MipsTlb, MipsCpu, ex_ibe}
use sys.Mips.Exception.{exception}
use sys.Mips.Memory.{translatemem}
use sys.Mips.Memory.Translation.{Translated, translatemem-Translated}
use sys.Mips.Pages.{
  Pages, mapmem, precompute_pc, precompute_nextpc, precompute, must_find, phony_exception,
}

-- Where a page is found `P` holds, and after a fault `Q`.
abbrev pub Looked : (P Q : MipsCpu → Type 0) → Bool × MipsCpu → Type 0
Looked P Q (false, cpu) = P cpu
Looked P Q (true, cpu) = Q cpu

module _ (pages : Pages) (P Q : MipsCpu → Type 0)
    (looked_up : (mt : MipsTlb) (cpu : MipsCpu) → P cpu → P (record cpu { tlbentry = mt }))
    (trapped : (code cn vaddr : ℕ) (cpu : MipsCpu) → P cpu → Q (exception code cn vaddr cpu)) where
  mapped :
      (b : Bool) (c : MipsCpu)
      → P c
      → Looked P Q (if◌then◌else◌ {A = Bool × MipsCpu} b (false, c) (true, exception ex_ibe 0 0 c))
  mapped true c p = p
  mapped false c p = trapped ex_ibe 0 0 c p

  page_found :
      (t : Option ℕ × MipsCpu)
      → Translated P Q t
      → Looked P Q (elim t.0 [
        | none ↦ (true, t.1)
        | some phys ↦ if mapmem pages phys then (false, t.1) else (true, exception ex_ibe 0 0 t.1)
      ])
  unfolding Translated
  page_found (none, c) p = p
  page_found (some phys, c) p = mapped (mapmem pages phys) c p

  precompute_pc-Looked : (cpu : MipsCpu) → P cpu → Looked P Q (precompute_pc pages cpu)
  unfolding precompute_pc
  precompute_pc-Looked cpu p =
      page_found (translatemem cpu.pc false cpu)
        (translatemem-Translated P Q looked_up trapped cpu.pc false cpu p)

  precompute_nextpc-Looked : (cpu : MipsCpu) → P cpu → Looked P Q (precompute_nextpc pages cpu)
  unfolding precompute_nextpc
  precompute_nextpc-Looked cpu p =
      page_found (translatemem cpu.nextpc false cpu)
        (translatemem-Translated P Q looked_up trapped cpu.nextpc false cpu p)

  must_find-P : (r : Bool × MipsCpu) → Looked P Q r → Ensures (must_find r) P
  must_find-P (false, c) p = p
  must_find-P (true, c) p = tt

-- What neither a lookup nor an exception changes is as it was.
precompute-keeps :
    (pages : Pages) (P : MipsCpu → Type 0)
    → ((mt : MipsTlb) (cpu : MipsCpu) → P cpu → P (record cpu { tlbentry = mt }))
    → ((code cn vaddr : ℕ) (cpu : MipsCpu) → P cpu → P (exception code cn vaddr cpu))
    → (cpu : MipsCpu) → P cpu
    → P (precompute pages cpu)
unfolding precompute
precompute-keeps pages P looked_up trapped cpu p =
    let whole : (r : Bool × MipsCpu) → Looked P P r → P r.1 = λ (b, c) q. either_way b c q in
    whole _ (
      precompute_nextpc-Looked pages P P looked_up trapped _
        (whole _ (precompute_pc-Looked pages P P looked_up trapped cpu p)))
  where
    either_way : (b : Bool) (c : MipsCpu) → Looked P P (b, c) → P c
    either_way true c q = q
    either_way false c q = q

pub precompute-tlb : (pages : Pages) (cpu : MipsCpu) → (precompute pages cpu).tlb ≡ cpu.tlb
unfolding exception
precompute-tlb pages cpu =
    precompute-keeps pages (λ c. c.tlb ≡ cpu.tlb) (λ mt c e. e) (λ code cn vaddr c e. e) cpu refl

-- A stall that ends keeps what the lookups keep and the pc is no part of.
pub phony_exception-keeps :
    (pages : Pages) (P : MipsCpu → Type 0)
    → ((mt : MipsTlb) (cpu : MipsCpu) → P cpu → P (record cpu { tlbentry = mt }))
    → ((pc nextpc : ℕ) (cpu : MipsCpu)
        → P cpu
        → P (record cpu { jumping = false; in_jumpdelay = false; pc = pc; nextpc = nextpc }))
    → (cpu : MipsCpu) → P cpu
    → Ensures (phony_exception pages cpu) P
unfolding phony_exception
phony_exception-keeps pages P looked_up rewound cpu p =
    let Q : MipsCpu → Type 0 = λ c. Unit in
    let trapped : (code cn vaddr : ℕ) (c : MipsCpu) → P c → Q (exception code cn vaddr c) =
      λ code cn vaddr c q. tt in
    let c0 : MipsCpu = record cpu {
      jumping = false;
      in_jumpdelay = false;
      pc = cpu.expc;
      nextpc = u32 (cpu.expc + 4);
    } in
    Ensures->>= (must_find (precompute_pc pages c0)) (λ c. must_find (precompute_nextpc pages c)) P
      P
      (must_find-P pages P Q looked_up trapped (precompute_pc pages c0) (
        precompute_pc-Looked pages P Q looked_up trapped c0
          (rewound cpu.expc (u32 (cpu.expc + 4)) cpu p)))
      (λ c q.
        must_find-P pages P Q looked_up trapped (precompute_nextpc pages c)
          (precompute_nextpc-Looked pages P Q looked_up trapped c q))
