-- ===== src/Mips/Tlb/Duplicates.antt =====
-- `check_tlb_dups` finds the entries that could match at once with the one just written.
use sys.Base.{
  ℕ, zero, suc, ◌+◌, ◌<◌, ◌≡◌, ◌≢◌, ◌⊎◌, refl, ap, sym, ◌∙◌, inl, inr, true, false, Bool-cases,
  List, [], ◌∷◌, some, get_elem?, get_elem?-set_self, get_elem?-set_ne, get_elem?-in, set, length,
  ◌==◌, ok, Returns, arith,
}
use sys.Mips.State.{MipsTlb, MipsCpu}
use sys.Mips.Tlb.{matches, clash, tlb_dups_from, hang_each, check_tlb_dups}
use sys.Mips.Pages.{Pages, precompute, writetlb}
use sys.Mips.Pages.Found.{precompute-tlb}
use mathlib.Core.Bool.{false≢true}

-- Some page of some address space for which `findtlb` takes both entries.
abbrev pub BothMatch : MipsTlb → MipsTlb → Type 0
BothMatch a b = (vpage pid : ℕ) × (matches vpage pid a ≡ true) × (matches vpage pid b ≡ true)

-- No entry but the one at `ix` matches at once with `new`.
abbrev pub NoClash : MipsTlb → ℕ → List MipsTlb → Type 0
NoClash new ix l = (j : ℕ) (mt : MipsTlb) → get_elem? l j ≡ some mt → j ≢ ix → ¬ BothMatch new mt

-- No two entries match at once.
abbrev pub NoDups : List MipsTlb → Type 0
NoDups l =
    (i j : ℕ) (mi mj : MipsTlb)
    → get_elem? l i ≡ some mi
    → get_elem? l j ≡ some mj
    → i ≢ j
    → ¬ BothMatch mi mj

-- Another entry that matches at once with `new`.
abbrev pub Clash : MipsTlb → ℕ → List MipsTlb → Type 0
Clash new ix l = (j : ℕ) × (mt : MipsTlb) × (get_elem? l j ≡ some mt) × (j ≢ ix) × BothMatch new mt

-- The test `clash` tells whether two entries match at once.
clash-BothMatch : (a b : MipsTlb) → clash a b ≡ true → BothMatch a b
clash-BothMatch a b e = elim (Bool-cases a.is_global) [
  | inl all ↦ (b.vpn, b.pid, ground arith, ground arith)
  | inr one ↦ (b.vpn, a.pid, ground arith, ground arith)
]

pub apart : (a b : MipsTlb) → clash a b ≡ false → ¬ BothMatch a b
apart a b e (vpage, pid, ha, hb) = absurd (false≢true (ground arith))

-- The loop from entry `i` on, with the numbers of the entries counted from there.
tlb_dups_from_lem :
    (new : MipsTlb) (ix i : ℕ) (l : List MipsTlb)
    → ((tlb_dups_from new ix i l ≡ [])
        × ((j : ℕ) (mt : MipsTlb) → get_elem? l j ≡ some mt → i + j ≢ ix → clash new mt ≡ false))
      ⊎ ((tlb_dups_from new ix i l ≢ [])
          × (j : ℕ) × (mt : MipsTlb) × (get_elem? l j ≡ some mt)
          × (i + j ≢ ix)
          × (clash new mt ≡ true))
unfolding tlb_dups_from
tlb_dups_from_lem new ix i [] = inl (refl, λ j mt h ne. cc)
tlb_dups_from_lem new ix i (m ∷ rest) = elim (Bool-cases (i == ix)) [
  | inl self ↦ rw self (elim (tlb_dups_from_lem new ix (suc i) rest) [
    | inl (clear, all) ↦ inl (clear, tail (λ ne. absurd (ne (ground arith))) all)
    | inr (found, j, mt, h, ne, c) ↦ inr (found, suc j, mt, h, (λ e. ne (omega arith)), c)
  ])
  | inr other ↦ elim (Bool-cases (clash new m)) [
    | inl hit ↦ rw (other, hit) (inr ((λ e. cc), 0, m, refl, (λ e. ground arith), hit))
    | inr miss ↦
        rw (other, miss)
          (elim (tlb_dups_from_lem new ix (suc i) rest) [
            | inl (clear, all) ↦ inl (clear, tail (λ ne. miss) all)
            | inr (found, j, mt, h, ne, c) ↦ inr (found, suc j, mt, h, (λ e. ne (omega arith)), c)
          ])
  ]
]
  where
    tail :
        (i ≢ ix → clash new m ≡ false)
        → ((j : ℕ) (mt : MipsTlb)
            → get_elem? rest j ≡ some mt
            → suc i + j ≢ ix
            → clash new mt ≡ false)
        → (j : ℕ) (mt : MipsTlb) → get_elem? (m ∷ rest) j ≡ some mt
        → i + j ≢ ix
        → clash new mt ≡ false
    tail head all zero mt h ne =
        let e : mt ≡ m = cc in ap (clash new) e ∙ head (λ q. ne (omega arith))
    tail head all (suc j) mt h ne = all j mt h (λ e. ne (omega arith))

-- Putting an entry that clashes with no other into a tlb without duplicates.
NoDups-set :
    (l : List MipsTlb) (ix : ℕ) (new : MipsTlb)
    → ix < length l
    → NoDups l
    → NoClash new ix (set l ix new)
    → NoDups (set l ix new)
NoDups-set l ix new inside clean fresh i j mi mj hi hj ne = elim (Bool-cases (i == ix)) [
  | inl at ↦
      let e : i ≡ ix = ground arith in
      let this : mi ≡ new = some_injective (sym hi ∙ here i e) in
      rw this (fresh j mj hj (λ q. ne (e ∙ sym q)))
  | inr away ↦ elim (Bool-cases (j == ix)) [
    | inl at ↦
        let e : j ≡ ix = ground arith in
        let this : mj ≡ new = some_injective (sym hj ∙ here j e) in
        rw this (λ (v, p, a, b). fresh i mi hi (λ q. ne (q ∙ sym e)) (v, p, b, a))
    | inr away' ↦ clean i j mi mj (old i away ∙ hi) (old j away' ∙ hj) ne
  ]
]
  where
    some_injective : {a b : MipsTlb} → some a ≡ some b → a ≡ b
    some_injective e = cc

    here : (k : ℕ) → k ≡ ix → get_elem? (set l ix new) k ≡ some new
    here k e = rw e (get_elem?-set_self l ix new inside)

    old : (k : ℕ) → k == ix ≡ false → get_elem? l k ≡ get_elem? (set l ix new) k
    old k e = sym (get_elem?-set_ne l new (λ q. ground arith))

pub writetlb_result :
    {W : Type 0} (hang : W → W) (pages : W → Pages) (ix : ℕ) (cpu : MipsCpu) (w : W)
    → ix < length cpu.tlb
    → let tlb = set cpu.tlb ix cpu.tlbentry in
      let w' = hang_each hang (tlb_dups_from cpu.tlbentry ix 0 tlb) w in
      writetlb hang pages ix (cpu, w) ≡ ok (precompute (pages w') (record cpu { tlb = tlb }), w')
unfolding writetlb
writetlb_result hang pages ix cpu w inside =
    let (old, found) = get_elem?-in cpu.tlb ix inside in
    rw (found, writetlb)
      (rw (get_elem?-set_self cpu.tlb ix cpu.tlbentry inside, check_tlb_dups) refl)

-- Into a tlb in which no two entries match at once for any page and address space, `writetlb`
-- puts the entry, and hangs at least once if some other entry could match at once with it; if none
-- could, it does not hang, and again no two entries match at once. The tlb is that also where
-- looking up the pages of the pc again takes an exception.
pub writetlb_lem :
    {W : Type 0} (hang : W → W) (pages : W → Pages) (ix : ℕ) (cpu : MipsCpu) (w : W)
    → ix < length cpu.tlb
    → NoDups cpu.tlb
    → Returns (writetlb hang pages ix (cpu, w)) (λ (cpu', w').
      (get_elem? cpu'.tlb ix ≡ some cpu.tlbentry)
      × (((w' ≡ w) × NoDups cpu'.tlb)
          ⊎ ((dups : List ℕ) × (dups ≢ [])
              × (w' ≡ hang_each hang dups w)
              × Clash cpu.tlbentry ix cpu'.tlb)))
unfolding hang_each
writetlb_lem hang pages ix cpu w inside clean =
    let new = cpu.tlbentry in
    let l = set cpu.tlb ix new in
    let w' = hang_each hang (tlb_dups_from new ix 0 l) w in
    rw
      (
        writetlb_result hang pages ix cpu w inside,
        precompute-tlb (pages w') (record cpu { tlb = l }),
      )
      (
        get_elem?-set_self cpu.tlb ix new inside,
        elim (tlb_dups_from_lem new ix 0 l) [
          | inl (clear, all) ↦ inl (
            rw clear refl,
            NoDups-set cpu.tlb ix new inside clean
                (λ j mt h ne. apart new mt (all j mt h (λ q. ne (omega arith)))),
          )
          | inr (hit, j, mt, h, ne, c) ↦ inr (
            tlb_dups_from new ix 0 l,
            hit,
            refl,
            (j, mt, h, (λ q. ne (omega arith)), clash-BothMatch new mt c),
          )
        ],
      )
