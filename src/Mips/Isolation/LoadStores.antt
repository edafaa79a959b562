-- ===== src/Mips/Isolation/LoadStores.antt =====
-- Loads and stores in user mode.
use sys.Base.{
  ℕ, Bool, true, false, not, ◌||◌, ◌==◌, if◌then◌else◌, Option, none, some, Outcome, ok, smoke,
  ◌>>=◌, Ensures, Ensures->>=,
}
use sys.Mips.State.{MipsCpu, set_reg}
use sys.Mips.Memory.{Buses, domem_read, domem_write}
use sys.Mips.Fields.{rt_of, addr_of}
use sys.Mips.LoadStore.Masks.{MemStyle, word_of, loaded, stored, stores}
use sys.Mips.LoadStore.{doload, dostore, mx_lw, mx_sw, mx_ll, mx_sc}
use sys.Mips.Memory.Translation.{Translated}
use sys.Mips.Isolation.{Kernel, Modes, Guarded, Alike, Alike-Guarded}
use sys.Mips.Isolation.Access.{
  Accessed, Written, Read, Done, domem_read-Accessed, domem_write-Written,
}

module _ (k : Kernel) (m : Modes) {W : Type 0} (buses : Buses W) where
  -- What is Guarded of a result.
  abbrev pub Kept : MipsCpu × W → Type 0
  Kept (cpu, w) = Guarded k m cpu

  -- A read that fails is done with; one that succeeds is followed by a step that keeps the kernel's.
  read_then :
      (vaddr : ℕ) (iswrite : Bool) (s : MipsCpu × W)
      (step : ℕ → MipsCpu × W → Outcome (MipsCpu × W))
      → Alike k m s.0
      → ((val : ℕ) (s : MipsCpu × W) → Alike k m s.0 → Ensures (step val s) Kept)
      → Ensures
          (domem_read buses vaddr iswrite s >>= λ (r, (cpu, w)). elim r [
            | none ↦ ok (cpu, w)
            | some val ↦ step val (cpu, w)
          ])
          Kept
  unfolding Accessed Translated
  read_then vaddr iswrite s step h next =
      Ensures->>= (domem_read buses vaddr iswrite s) _ (Read k m buses) Kept
        (domem_read-Accessed k m buses vaddr iswrite s h) go
    where
      go :
          (a : Option ℕ × (MipsCpu × W))
          → Read k m buses a
          → Ensures
              (elim a.0 [ none ↦ ok (a.1.0, a.1.1) | some val ↦ step val (a.1.0, a.1.1) ])
              Kept
      go (none, (cpu, w)) p = p
      go (some val, (cpu, w)) p = next val (cpu, w) p

  write_then :
      (vaddr val : ℕ) (s : MipsCpu × W) (step : Bool → MipsCpu × W → MipsCpu × W)
      → Alike k m s.0
      → ((done : Bool) (s : MipsCpu × W) → Guarded k m s.0 → Guarded k m (step done s).0)
      → Ensures (domem_write buses vaddr val true s >>= λ (done, s). ok (step done s)) Kept
  unfolding Written
  write_then vaddr val s step h next =
      Ensures->>= (domem_write buses vaddr val true s) _ (Done k m buses) Kept
        (domem_write-Written k m buses vaddr val true s h) go
    where
      go : (a : Bool × (MipsCpu × W)) → Done k m buses a → Kept (step a.0 a.1)
      go (true, (cpu, w)) p = next true (cpu, w) (Alike-Guarded k m cpu p)
      go (false, (cpu, w)) p = next false (cpu, w) p

  pub doload-Kept :
      (ms : MemStyle) (addr res : ℕ) (s : MipsCpu × W)
      → Alike k m s.0
      → Ensures (doload buses ms addr res s) Kept
  unfolding doload
  doload-Kept ms addr res (cpu, w) h =
      read_then (word_of ms addr) false (cpu, w)
        (λ val (c, w'). ok (set_reg res (loaded ms addr (c.r res) val) c, w')) h
        (λ val s p. Alike-Guarded k m (set_reg res (loaded ms addr (s.0.r res) val) s.0) p)

  pub dostore-Kept :
      (ms : MemStyle) (addr val : ℕ) (s : MipsCpu × W)
      → Alike k m s.0
      → Ensures (dostore buses ms addr val s) Kept
  unfolding dostore
  dostore-Kept ms addr val (cpu, w) h = go (not (stores ms))
    where
      go :
          (bad : Bool)
          → Ensures
              (if bad
                then smoke
                else domem_read buses (word_of ms addr) true (cpu, w) >>= λ (r, (cpu', w')).
                    elim r [
                      | none ↦ ok (cpu', w')
                      | some wval ↦
                          domem_write buses
                            (word_of ms addr)
                            (stored ms addr val wval)
                            true
                            (cpu', w')
                          >>= λ (done, s). ok s
                    ])
              Kept
      go true = tt
      go false =
          read_then (word_of ms addr) true (cpu, w)
            (λ wval s.
              domem_write buses (word_of ms addr) (stored ms addr val wval) true s >>= λ (done, s').
              ok s')
            h
            (λ wval s p.
              write_then (word_of ms addr) (stored ms addr val wval) s (λ done s'. s') p
                (λ done s' q. q))

  pub mx_lw-Kept : (insn : ℕ) (s : MipsCpu × W) → Alike k m s.0 → Ensures (mx_lw buses insn s) Kept
  unfolding mx_lw
  mx_lw-Kept insn (cpu, w) h =
      read_then (addr_of insn cpu) false (cpu, w)
        (λ val (c, w'). ok (set_reg (rt_of insn) val c, w')) h
        (λ val s p. Alike-Guarded k m (set_reg (rt_of insn) val s.0) p)

  pub mx_sw-Kept : (insn : ℕ) (s : MipsCpu × W) → Alike k m s.0 → Ensures (mx_sw buses insn s) Kept
  unfolding mx_sw
  mx_sw-Kept insn (cpu, w) h =
      write_then (addr_of insn cpu) (cpu.r (rt_of insn)) (cpu, w) (λ done s. s) h (λ done s p. p)

  pub mx_ll-Kept : (insn : ℕ) (s : MipsCpu × W) → Alike k m s.0 → Ensures (mx_ll buses insn s) Kept
  unfolding mx_ll
  mx_ll-Kept insn (cpu, w) h =
      let linked : ℕ → MipsCpu → MipsCpu = λ val c. record (set_reg (rt_of insn) val c) {
        ll_active = true;
        ll_addr = addr_of insn cpu;
        ll_value = val;
      } in
      read_then (addr_of insn cpu) false (cpu, w) (λ val (c, w'). ok (linked val c, w')) h
        (λ val s p. Alike-Guarded k m (linked val s.0) p)

  pub mx_sc-Kept : (insn : ℕ) (s : MipsCpu × W) → Alike k m s.0 → Ensures (mx_sc buses insn s) Kept
  unfolding mx_sc
  mx_sc-Kept insn (cpu, w) h = go (not cpu.ll_active || not (cpu.ll_addr == addr_of insn cpu))
    where
      finish : Bool → MipsCpu × W → MipsCpu × W
      finish done (c, w') = (if done then set_reg (rt_of insn) 1 c else c, w')

      finished : (done : Bool) (s : MipsCpu × W) → Guarded k m s.0 → Guarded k m (finish done s).0
      finished true (c, w') p = p
      finished false (c, w') p = p

      attempt : ℕ → MipsCpu × W → Outcome (MipsCpu × W)
      attempt temp (c, w') =
          if not (temp == c.ll_value)
          then ok (set_reg (rt_of insn) 0 c, w')
          else domem_write buses (addr_of insn cpu) (c.r (rt_of insn)) true (c, w') >>= λ (done, s).
              ok (finish done s)

      attempted :
          (other : Bool) (c : MipsCpu) (w' : W)
          → Alike k m c
          → Ensures
              (if other
                then ok (set_reg (rt_of insn) 0 c, w')
                else domem_write buses (addr_of insn cpu) (c.r (rt_of insn)) true (c, w')
                  >>= λ (done, s). ok (finish done s))
              Kept
      attempted true c w' p = Alike-Guarded k m (set_reg (rt_of insn) 0 c) p
      attempted false c w' p =
          write_then (addr_of insn cpu) (c.r (rt_of insn)) (c, w') finish p finished

      go :
          (fail : Bool)
          → Ensures
              (if fail
                then ok (set_reg (rt_of insn) 0 cpu, w)
                else domem_read buses (addr_of insn cpu) true (cpu, w) >>= λ (r, (c, w')). elim r [
                  | none ↦ ok (c, w')
                  | some temp ↦ attempt temp (c, w')
                ])
              Kept
      go true = Alike-Guarded k m (set_reg (rt_of insn) 0 cpu) h
      go false =
          read_then (addr_of insn cpu) true (cpu, w) attempt h
            (λ temp s p. attempted (not (temp == s.0.ll_value)) s.0 s.1 p)
