-- ===== src/Mips/LoadStore.antt =====
-- Loads and stores: `doload`, `dostore`, and the instructions that call them or `domem`.
pub mod Masks
use sys.Base.{
  ℕ, Bool, true, false, ◌+◌, not, ◌==◌, if◌then◌else◌, ◌||◌, Option, none, some, bit_and, Outcome,
  ok, smoke, ◌>>=◌,
}
use sys.Mips.State.{MipsCpu, set_reg}
use sys.Mips.Exception.{exception}
use sys.Mips.Fields.{rs_of, rt_of, addr_of}
use sys.Mips.Memory.{Buses, domem_read, domem_write}
use sys.Mips.LoadStore.Masks.{
  MemStyle, s_sbyte, s_ubyte, s_shalf, s_uhalf, s_wordl, s_wordr, word_of, loaded, stored, stores,
}

module _ {W : Type 0} (buses : Buses W) where
  -- `doload` into the register `res`.
  unfoldable pub doload : MemStyle → ℕ → ℕ → MipsCpu × W → Outcome (MipsCpu × W)
  unfolding domem_read word_of loaded
  doload ms addr res (cpu, w) =
      domem_read buses (word_of ms addr) false (cpu, w) >>= λ (r, (cpu', w')). elim r [
        | none ↦ ok (cpu', w')
        | some val ↦ ok (set_reg res (loaded ms addr (cpu'.r res) val) cpu', w')
      ]

  -- `dostore`: the word is read, changed and written back.
  unfoldable pub dostore : MemStyle → ℕ → ℕ → MipsCpu × W → Outcome (MipsCpu × W)
  unfolding domem_read domem_write word_of stored stores
  dostore ms addr val (cpu, w) =
      if not (stores ms)
      then smoke
      else domem_read buses (word_of ms addr) true (cpu, w) >>= λ (r, (cpu', w')). elim r [
        | none ↦ ok (cpu', w')
        | some wval ↦
            domem_write buses (word_of ms addr) (stored ms addr val wval) true (cpu', w')
            >>= λ (done, s). ok s
      ]

  unfoldable pub mx_lb : ℕ → MipsCpu × W → Outcome (MipsCpu × W)
  unfolding doload
  mx_lb insn (cpu, w) = doload s_sbyte (addr_of insn cpu) (rt_of insn) (cpu, w)

  unfoldable pub mx_lbu : ℕ → MipsCpu × W → Outcome (MipsCpu × W)
  unfolding doload
  mx_lbu insn (cpu, w) = doload s_ubyte (addr_of insn cpu) (rt_of insn) (cpu, w)

  unfoldable pub mx_lh : ℕ → MipsCpu × W → Outcome (MipsCpu × W)
  unfolding doload
  mx_lh insn (cpu, w) = doload s_shalf (addr_of insn cpu) (rt_of insn) (cpu, w)

  unfoldable pub mx_lhu : ℕ → MipsCpu × W → Outcome (MipsCpu × W)
  unfolding doload
  mx_lhu insn (cpu, w) = doload s_uhalf (addr_of insn cpu) (rt_of insn) (cpu, w)

  unfoldable pub mx_lwl : ℕ → MipsCpu × W → Outcome (MipsCpu × W)
  unfolding doload
  mx_lwl insn (cpu, w) = doload s_wordl (addr_of insn cpu) (rt_of insn) (cpu, w)

  unfoldable pub mx_lwr : ℕ → MipsCpu × W → Outcome (MipsCpu × W)
  unfolding doload
  mx_lwr insn (cpu, w) = doload s_wordr (addr_of insn cpu) (rt_of insn) (cpu, w)

  unfoldable pub mx_sb : ℕ → MipsCpu × W → Outcome (MipsCpu × W)
  unfolding dostore
  mx_sb insn (cpu, w) = dostore s_ubyte (addr_of insn cpu) (cpu.r (rt_of insn)) (cpu, w)

  unfoldable pub mx_sh : ℕ → MipsCpu × W → Outcome (MipsCpu × W)
  unfolding dostore
  mx_sh insn (cpu, w) = dostore s_uhalf (addr_of insn cpu) (cpu.r (rt_of insn)) (cpu, w)

  unfoldable pub mx_swl : ℕ → MipsCpu × W → Outcome (MipsCpu × W)
  unfolding dostore
  mx_swl insn (cpu, w) = dostore s_wordl (addr_of insn cpu) (cpu.r (rt_of insn)) (cpu, w)

  unfoldable pub mx_swr : ℕ → MipsCpu × W → Outcome (MipsCpu × W)
  unfolding dostore
  mx_swr insn (cpu, w) = dostore s_wordr (addr_of insn cpu) (cpu.r (rt_of insn)) (cpu, w)

  unfoldable pub mx_lw : ℕ → MipsCpu × W → Outcome (MipsCpu × W)
  unfolding domem_read
  mx_lw insn (cpu, w) = domem_read buses (addr_of insn cpu) false (cpu, w) >>= λ (r, (cpu', w')).
      elim r [ none ↦ ok (cpu', w') | some val ↦ ok (set_reg (rt_of insn) val cpu', w') ]

  unfoldable pub mx_sw : ℕ → MipsCpu × W → Outcome (MipsCpu × W)
  unfolding domem_write
  mx_sw insn (cpu, w) =
      domem_write buses (addr_of insn cpu) (cpu.r (rt_of insn)) true (cpu, w) >>= λ (done, s). ok s

  -- `mx_ll`, but for the statistics.
  unfoldable pub mx_ll : ℕ → MipsCpu × W → Outcome (MipsCpu × W)
  unfolding domem_read
  mx_ll insn (cpu, w) =
      let addr = addr_of insn cpu in
      domem_read buses addr false (cpu, w) >>= λ (r, (cpu', w')). elim r [
        | none ↦ ok (cpu', w')
        | some val ↦ ok (
          record (set_reg (rt_of insn) val cpu') {
            ll_active = true;
            ll_addr = addr;
            ll_value = val;
          },
          w',
        )
      ]

  -- `mx_sc`, but for the statistics.
  unfoldable pub mx_sc : ℕ → MipsCpu × W → Outcome (MipsCpu × W)
  unfolding domem_read domem_write
  mx_sc insn (cpu, w) =
      let addr = addr_of insn cpu in
      if not cpu.ll_active || not (cpu.ll_addr == addr)
      then ok (set_reg (rt_of insn) 0 cpu, w)
      else domem_read buses addr true (cpu, w) >>= λ (r, (cpu', w')). elim r [
        | none ↦ ok (cpu', w')
        | some temp ↦
            if not (temp == cpu'.ll_value)
            then ok (set_reg (rt_of insn) 0 cpu', w')
            else domem_write buses addr (cpu'.r (rt_of insn)) true (cpu', w')
              >>= λ (done, (cpu'', w'')).
                  ok (if done then set_reg (rt_of insn) 1 cpu'' else cpu'', w'')
      ]
