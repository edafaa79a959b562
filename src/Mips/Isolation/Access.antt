-- ===== src/Mips/Isolation/Access.antt =====
-- Accesses to memory change nothing of the kernel's, whether they fail or not.
use sys.Base.{ℕ, Bool, true, false, Option, none, some, ok, Ensures, Ensures-any}
use sys.Mips.State.{MipsCpu, ex_dbe}
use sys.Mips.Exception.{exception}
use sys.Mips.Memory.{translatemem, Buses, accessmem_read, accessmem_write, domem_read, domem_write}
use sys.Mips.Memory.Translation.{Translated, translatemem-Translated}
use sys.Mips.Isolation.{Kernel, Modes, Guarded, Alike, Alike-Guarded, exception-Guarded}

-- A failure has taken an exception, and otherwise nothing has changed.
unfoldable pub Accessed : Kernel → Modes → Option ℕ × MipsCpu → Type 0
unfolding Translated
Accessed k m = Translated (Alike k m) (Guarded k m)

unfoldable pub Written : Kernel → Modes → Bool × MipsCpu → Type 0
Written k m (false, cpu) = Guarded k m cpu
Written k m (true, cpu) = Alike k m cpu

module _ (k : Kernel) (m : Modes) where
  pub translatemem-Accessed :
      (vaddr : ℕ) (iswrite : Bool) (cpu : MipsCpu)
      → Alike k m cpu
      → Accessed k m (translatemem vaddr iswrite cpu)
  unfolding Accessed Translated
  translatemem-Accessed =
      translatemem-Translated (Alike k m) (Guarded k m) (λ mt cpu h. h) (exception-Guarded k m)

  -- What a failure or a value leads to.
  Accessed-Guarded : (r : Option ℕ × MipsCpu) → Accessed k m r → Guarded k m r.1
  unfolding Accessed Translated
  Accessed-Guarded (none, cpu) h = h
  Accessed-Guarded (some a, cpu) h = Alike-Guarded k m cpu h

  module _ {W : Type 0} (buses : Buses W) where
    -- The same for a result with the rest of the machine.
    abbrev pub Read : Option ℕ × (MipsCpu × W) → Type 0
    Read (r, (cpu, w)) = Accessed k m (r, cpu)

    abbrev pub Done : Bool × (MipsCpu × W) → Type 0
    Done (r, (cpu, w)) = Written k m (r, cpu)

    answer-Accessed :
        (cpu : MipsCpu) (r : Option ℕ × W)
        → Alike k m cpu
        → Ensures
            (elim r.0 [
              | none ↦ ok (none, (exception ex_dbe 0 0 cpu, r.1))
              | some val ↦ ok (some val, (cpu, r.1))
            ])
            Read
    unfolding Accessed Translated
    answer-Accessed cpu (none, w) h = exception-Guarded k m _ _ _ cpu h
    answer-Accessed cpu (some val, w) h = h

    accessmem_read-Accessed :
        (paddr : ℕ) (s : MipsCpu × W) → Alike k m s.0 → Ensures (accessmem_read buses paddr s) Read
    unfolding accessmem_read
    accessmem_read-Accessed paddr (cpu, w) h = Ensures-any _ _ Read (λ r. answer-Accessed cpu r h)

    write-Written :
        (cpu : MipsCpu) (w : W) (r : Option W)
        → Alike k m cpu
        → Ensures
            (elim r [
              | none ↦ ok (false, (exception ex_dbe 0 0 cpu, w))
              | some w' ↦ ok (true, (cpu, w'))
            ])
            Done
    unfolding Written
    write-Written cpu w none h = exception-Guarded k m _ _ _ cpu h
    write-Written cpu w (some w') h = h

    accessmem_write-Written :
        (paddr val : ℕ) (s : MipsCpu × W)
        → Alike k m s.0
        → Ensures (accessmem_write buses paddr val s) Done
    unfolding accessmem_write
    accessmem_write-Written paddr val (cpu, w) h =
        Ensures-any _ _ Done (λ r. write-Written cpu w r h)

    pub domem_read-Accessed :
        (vaddr : ℕ) (iswrite : Bool) (s : MipsCpu × W)
        → Alike k m s.0
        → Ensures (domem_read buses vaddr iswrite s) Read
    unfolding domem_read Accessed Translated
    domem_read-Accessed vaddr iswrite (cpu, w) h =
        go (translatemem vaddr iswrite cpu) (translatemem-Accessed vaddr iswrite cpu h)
      where
        go :
            (t : Option ℕ × MipsCpu)
            → Accessed k m t
            → Ensures
                (elim t.0 [
                  | none ↦ ok (none, (t.1, w))
                  | some paddr ↦ accessmem_read buses paddr (t.1, w)
                ])
                Read
        go (none, c) h = h
        go (some paddr, c) h = accessmem_read-Accessed paddr (c, w) h

    pub domem_write-Written :
        (vaddr val : ℕ) (iswrite : Bool) (s : MipsCpu × W)
        → Alike k m s.0
        → Ensures (domem_write buses vaddr val iswrite s) Done
    unfolding domem_write Accessed Translated Written
    domem_write-Written vaddr val iswrite (cpu, w) h =
        go (translatemem vaddr iswrite cpu) (translatemem-Accessed vaddr iswrite cpu h)
      where
        go :
            (t : Option ℕ × MipsCpu)
            → Accessed k m t
            → Ensures
                (elim t.0 [
                  | none ↦ ok (false, (t.1, w))
                  | some paddr ↦ accessmem_write buses paddr val (t.1, w)
                ])
                Done
        go (none, c) h = h
        go (some paddr, c) h = accessmem_write-Written paddr val (c, w) h
