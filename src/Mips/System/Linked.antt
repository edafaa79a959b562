-- ===== src/Mips/System/Linked.antt =====
-- `ll` and `sc`: what is stored, and when.
use sys.Base.{
  ℕ, ◌≡◌, ◌≢◌, refl, Bool, true, false, not, ◌||◌, ◌==◌, if◌then◌else◌, Outcome, ok, arith,
}
use mathlib.Core.Bool.{false≢true}
use sys.Mips.State.{MipsCpu, set_reg}
use sys.Mips.Exception.{exception}
use sys.Mips.Fields.{rt_of, addr_of}
use sys.Mips.Memory.{Buses}
use sys.Mips.LoadStore.{mx_sc}

module _ {W : Type 0} (buses : Buses W) where
  -- What `sc` does where it fails at once: it stores nothing.
  abbrev pub Refused : ℕ → MipsCpu × W → Type 0
  Refused insn (cpu, w) = mx_sc buses insn (cpu, w) ≡ ok (set_reg (rt_of insn) 0 cpu, w)

  sc_if :
      (insn : ℕ) (cpu : MipsCpu) (w : W)
      → (not cpu.ll_active || not (cpu.ll_addr == addr_of insn cpu)) ≡ true
      → Refused insn (cpu, w)
  unfolding mx_sc
  sc_if insn cpu w = go (not cpu.ll_active || not (cpu.ll_addr == addr_of insn cpu)) _
    where
      go :
          (fail : Bool) (rest : Outcome (MipsCpu × W))
          → fail ≡ true
          → (if fail then ok (set_reg (rt_of insn) 0 cpu, w) else rest)
            ≡ ok (set_reg (rt_of insn) 0 cpu, w)
      go true rest e = refl
      go false rest e = absurd (false≢true e)

  mx_sc-Refused :
      (insn code cn vaddr : ℕ) (cpu : MipsCpu) (w : W)
      → Refused insn (exception code cn vaddr cpu, w)
        × (cpu.ll_addr ≢ addr_of insn cpu → Refused insn (cpu, w))
  unfolding exception
  mx_sc-Refused insn code cn vaddr cpu w =
      (sc_if insn (exception code cn vaddr cpu) w refl, λ other. sc_if insn cpu w (ground arith))
