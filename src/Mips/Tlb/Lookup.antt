-- ===== src/Mips/Tlb/Lookup.antt =====
-- What `findtlb` finds.
use sys.Base.{
  ℕ, zero, suc, ◌+◌, ◌<◌, ◌≡◌, ◌⊎◌, refl, ap, ◌∙◌, inl, inr, true, false, Bool-cases, List, [], ◌∷◌,
  none, some, get_elem?, arith,
}
use sys.Mips.State.{MipsTlb, MipsCpu}
use sys.Mips.Tlb.{matches, findtlb_from, findtlb}

-- The first entry of a list that matches is at index `i`, and is `mt`.
abbrev pub FirstMatch : ℕ → ℕ → List MipsTlb → ℕ → MipsTlb → Type 0
FirstMatch vpage pid l i mt =
    (get_elem? l i ≡ some mt)
    × (matches vpage pid mt ≡ true)
    × ((j : ℕ) (mt' : MipsTlb) → j < i → get_elem? l j ≡ some mt' → matches vpage pid mt' ≡ false)

abbrev pub NoMatch : ℕ → ℕ → List MipsTlb → Type 0
NoMatch vpage pid l =
    (j : ℕ) (mt : MipsTlb) → get_elem? l j ≡ some mt → matches vpage pid mt ≡ false

NoMatch-cons :
    (vpage pid : ℕ) (m : MipsTlb) (rest : List MipsTlb)
    → matches vpage pid m ≡ false
    → NoMatch vpage pid rest
    → NoMatch vpage pid (m ∷ rest)
NoMatch-cons vpage pid m rest miss all zero mt h =
    let e : mt ≡ m = cc in ap (matches vpage pid) e ∙ miss
NoMatch-cons vpage pid m rest miss all (suc j) mt h = all j mt h

FirstMatch-cons :
    (vpage pid : ℕ) (m : MipsTlb) (rest : List MipsTlb) (i : ℕ) (mt : MipsTlb)
    → matches vpage pid m ≡ false
    → FirstMatch vpage pid rest i mt
    → FirstMatch vpage pid (m ∷ rest) (suc i) mt
FirstMatch-cons vpage pid m rest i mt miss first = (first.0, first.1, earlier)
  where
    earlier :
        (j : ℕ) (mt' : MipsTlb)
        → j < suc i
        → get_elem? (m ∷ rest) j ≡ some mt'
        → matches vpage pid mt' ≡ false
    earlier zero mt' lt h = let e : mt' ≡ m = cc in ap (matches vpage pid) e ∙ miss
    earlier (suc j) mt' lt h = first.2 j mt' (omega arith) h

findtlb_from_lem :
    (vpage pid i : ℕ) (l : List MipsTlb)
    → ((findtlb_from vpage pid i l ≡ none) × NoMatch vpage pid l)
      ⊎ ((n : ℕ) × (j : ℕ) × (mt : MipsTlb) × (findtlb_from vpage pid i l ≡ some (n, mt))
          × (n ≡ i + j)
          × FirstMatch vpage pid l j mt)
unfolding findtlb_from
findtlb_from_lem vpage pid i [] = inl (refl, λ j mt h. cc)
findtlb_from_lem vpage pid i (m ∷ rest) = elim (Bool-cases (matches vpage pid m)) [
  | inl here ↦
      rw here (inr (i, 0, m, refl, omega arith, (refl, here, λ j mt lt h. absurd (omega arith))))
  | inr miss ↦ rw miss (elim (findtlb_from_lem vpage pid (suc i) rest) [
    | inl (nothing, all) ↦ inl (nothing, NoMatch-cons vpage pid m rest miss all)
    | inr (n, j, mt, found, at, first) ↦
        inr (n, suc j, mt, found, omega arith, FirstMatch-cons vpage pid m rest j mt miss first)
  ])
]

-- `findtlb` finds the first entry that has the page, and the address space of the cpu or none in
-- particular; it finds nothing only where there is miss such entry.
pub findtlb_lem :
    (vpage : ℕ) (cpu : MipsCpu)
    → ((findtlb vpage cpu ≡ none) × NoMatch vpage cpu.tlbentry.pid cpu.tlb)
      ⊎ ((i : ℕ) × (mt : MipsTlb) × (findtlb vpage cpu ≡ some (i, mt))
          × FirstMatch vpage cpu.tlbentry.pid cpu.tlb i mt)
unfolding findtlb
findtlb_lem vpage cpu = elim (findtlb_from_lem vpage cpu.tlbentry.pid 0 cpu.tlb) [
  | inl (nothing, all) ↦ inl (nothing, all)
  | inr (n, j, mt, found, at, first) ↦
      let e : n ≡ j = omega arith in inr (j, mt, rw⁻¹ e found, first)
]
