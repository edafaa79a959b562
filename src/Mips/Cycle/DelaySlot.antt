-- ===== src/Mips/Cycle/DelaySlot.antt =====
-- Branches, their delay slots, and the exceptions taken there.
use sys.Base.{
  ℕ, ◌+◌, ◌≡◌, ◌⊎◌, inl, inr, refl, sym, ◌∙◌, Bool, true, false, ◌==◌, if◌then◌else◌, Option, none,
  some, bit_and, u32, not, ◌&&◌,
}
use mathlib.Core.Bool.{false≢true}
use sys.Base.Bits.{nonzero}
use sys.Mips.State.{MipsCpu, ex_adel, ex_ibe}
use sys.Mips.Exception.{exception}
use sys.Mips.Exception.Vectors.{AtVector, vector-AtVector}
use sys.Mips.Memory.{translatemem}
use sys.Mips.Memory.Translation.{Translated, translatemem-Translated}
use sys.Mips.Pages.{Pages, mapmem, precompute_nextpc}
use sys.Mips.Branch.{abranch, fullop_rfe}
use sys.Mips.Cycle.{update_expc, update_pc}

-- A branch to `addr` from `cpu` that is to be taken, and one that has faulted.
abbrev pub Branching : ℕ → MipsCpu → MipsCpu → Type 0
Branching addr cpu c =
    (c.jumping ≡ true)
    × (c.nextpc ≡ addr)
    × (c.pc ≡ cpu.pc)
    × (c.expc ≡ cpu.expc)
    × (c.in_jumpdelay ≡ cpu.in_jumpdelay)

abbrev pub Faulted : MipsCpu → MipsCpu → Type 0
Faulted cpu c =
    (c.jumping ≡ false) × AtVector c.pc × (c.ex_epc ≡ cpu.expc) × (c.cause_bd ≡ cpu.in_jumpdelay)

module _ (pages : Pages) (addr : ℕ) (cpu : MipsCpu) where
  trapped :
      (code cn vaddr : ℕ) (c : MipsCpu)
      → Branching addr cpu c
      → Faulted cpu (exception code cn vaddr c)
  unfolding exception
  trapped code cn vaddr c (j, n, p, e, d) =
      (refl, vector-AtVector c.status_bootvectors code cn, e, d)

  precompute_nextpc_lem :
      (c : MipsCpu)
      → Branching addr cpu c
      → Branching addr cpu (precompute_nextpc pages c).1 ⊎ Faulted cpu (precompute_nextpc pages c).1
  unfolding precompute_nextpc Translated
  precompute_nextpc_lem c h = go (translatemem c.nextpc false c) (
      translatemem-Translated (Branching addr cpu) (Faulted cpu) (λ mt c h. h) trapped c.nextpc
        false c h)
    where
      mapped :
          (b : Bool) (c : MipsCpu)
          → Branching addr cpu c
          → (let r : Bool × MipsCpu = if b then (false, c) else (true, exception ex_ibe 0 0 c) in
              Branching addr cpu r.1 ⊎ Faulted cpu r.1)
      mapped true c p = inl p
      mapped false c p = inr (trapped ex_ibe 0 0 c p)

      go :
          (t : Option ℕ × MipsCpu)
          → Translated (Branching addr cpu) (Faulted cpu) t
          → (let r : Bool × MipsCpu = elim t.0 [
            | none ↦ (true, t.1)
            | some physnext ↦
                if mapmem pages physnext then (false, t.1) else (true, exception ex_ibe 0 0 t.1)
          ] in
              Branching addr cpu r.1 ⊎ Faulted cpu r.1)
      go (none, c) p = inr p
      go (some physnext, c) p = mapped (mapmem pages physnext) c p

  -- `abranch` outside a delay slot.
  abranch_lem :
      cpu.jumping ≡ false
      → Branching addr cpu (abranch pages addr cpu) ⊎ Faulted cpu (abranch pages addr cpu)
  unfolding abranch exception
  abranch_lem h = go (nonzero (bit_and addr 3)) (pages.pc_word jumped == fullop_rfe)
    where
      jumped : MipsCpu
      jumped = record cpu { nextpc = addr; jumping = true }

      go :
          (misaligned rfe : Bool)
          → (let c : MipsCpu =
                if misaligned
                then exception ex_adel 0 addr cpu
                else if rfe
                then jumped
                else (precompute_nextpc pages jumped).1 in
              Branching addr cpu c ⊎ Faulted cpu c)
      go true rfe = inr (refl, vector-AtVector cpu.status_bootvectors ex_adel 0, refl, refl)
      go false true = inl (refl, refl, refl, refl, refl)
      go false false = precompute_nextpc_lem jumped (refl, refl, refl, refl, refl)

-- The pc that a look-up of the next page leaves alone where it succeeds.
abbrev At : ℕ → Bool × MipsCpu → Type 0
At addr (fault, c) = fault ≡ false → c.pc ≡ addr

precompute_nextpc-At :
    (pages : Pages) (addr : ℕ) (c : MipsCpu) → c.pc ≡ addr → At addr (precompute_nextpc pages c)
unfolding precompute_nextpc Translated
precompute_nextpc-At pages addr c h = go (translatemem c.nextpc false c) (
    translatemem-Translated (λ c. c.pc ≡ addr) (λ c. Unit) (λ mt c h. h) (λ code cn v c h. tt)
      c.nextpc false c h)
  where
    mapped :
        (b : Bool) (c : MipsCpu)
        → c.pc ≡ addr
        → At addr (if b then (false, c) else (true, exception ex_ibe 0 0 c))
    mapped true c p = λ e. p
    mapped false c p = λ e. absurd (false≢true (sym e))

    go :
        (t : Option ℕ × MipsCpu)
        → Translated (λ c. c.pc ≡ addr) (λ c. Unit) t
        → At addr (elim t.0 [
          | none ↦ (true, t.1)
          | some physnext ↦
              if mapmem pages physnext then (false, t.1) else (true, exception ex_ibe 0 0 t.1)
        ])
    go (none, c) p = λ e. absurd (false≢true (sym e))
    go (some physnext, c) p = mapped (mapmem pages physnext) c p

update_pc-At : (pages : Pages) (insn : ℕ) (c : MipsCpu) → At c.nextpc (update_pc pages insn c)
unfolding update_pc
update_pc-At pages insn c = go (bit_and moved.nextpc 0xfff == 0 && not (insn == fullop_rfe))
  where
    moved : MipsCpu
    moved = record c { pc = c.nextpc; nextpc = u32 (c.nextpc + 4) }

    go : (b : Bool) → At c.nextpc (if b then precompute_nextpc pages moved else (false, moved))
    go true = precompute_nextpc-At pages c.nextpc moved refl
    go false = λ e. refl

-- The cycle behind a branch: it executes the instruction at `c.pc`, in the delay slot.
abbrev pub InDelaySlot : Pages → ℕ → MipsCpu → MipsCpu → Type 0
InDelaySlot pages addr cpu d =
    (d.in_jumpdelay ≡ true)
    × (d.jumping ≡ false)
    × (d.pc ≡ cpu.pc)
    × (d.expc ≡ cpu.expc)
    × ((code cn vaddr : ℕ)
        → ((exception code cn vaddr d).ex_epc ≡ cpu.expc)
          × ((exception code cn vaddr d).cause_bd ≡ true))
    × ((insn : ℕ) → (update_pc pages insn d).0 ≡ false → (update_pc pages insn d).1.pc ≡ addr)

update_expc-InDelaySlot :
    (pages : Pages) (addr : ℕ) (cpu c : MipsCpu)
    → Branching addr cpu c
    → InDelaySlot pages addr cpu (update_expc c)
unfolding update_expc exception
update_expc-InDelaySlot pages addr cpu c (j, n, p, e, d) = go c.jumping j
  where
    slot : MipsCpu
    slot = record c { jumping = false; in_jumpdelay = true }

    go :
        (b : Bool)
        → b ≡ true
        → InDelaySlot pages addr cpu (if b then slot else record c { expc = c.pc })
    go true e' = (
      refl,
      refl,
      p,
      e,
      λ code cn vaddr. (e, refl),
      λ insn fine. update_pc-At pages insn slot fine ∙ n,
    )
    go false e' = absurd (false≢true e')

-- A branch, executed outside a delay slot, either faults: it is at a handler, its own address
-- is saved, and no jump is pending; or in the next cycle the instruction behind it is executed,
-- an exception there reports the branch and the delay slot, and the pc goes on to the target of
-- the branch, unless the page behind has a fault.
pub delay_slot_lem :
    (pages : Pages) (addr : ℕ) (cpu : MipsCpu)
    → cpu.jumping ≡ false
    → InDelaySlot pages addr cpu (update_expc (abranch pages addr cpu))
      ⊎ Faulted cpu (abranch pages addr cpu)
delay_slot_lem pages addr cpu h = elim (abranch_lem pages addr cpu h) [
  | inl branching ↦ inl (update_expc-InDelaySlot pages addr cpu (abranch pages addr cpu) branching)
  | inr faulted ↦ inr faulted
]
