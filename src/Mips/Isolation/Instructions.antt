-- ===== src/Mips/Isolation/Instructions.antt =====
-- Each instruction in user mode, and the decoding.
use sys.Base.{ℕ, ◌/◌, ◌^◌, ◌≡◌, true, inl, refl, bit_and, Ensures, ◌&◌}
use sys.Mips.State.{MipsCpu, set_reg, ex_cpu, ex_sys, ex_bp, ex_ri}
use sys.Mips.Fields.{rt_of, rd_of, cn_of, addr_of}
use sys.Mips.Alu.{
  mx_sll, mx_srl, mx_sra, mx_sllv, mx_srlv, mx_srav, mx_addu, mx_subu, mx_and, mx_or, mx_xor,
  mx_nor, mx_slt, mx_sltu, mx_addiu, mx_slti, mx_sltiu, mx_andi, mx_ori, mx_xori, mx_lui, mx_add,
  mx_sub, mx_addi,
}
use sys.Mips.Alu.Multiply.{mx_mfhi, mx_mthi, mx_mflo, mx_mtlo, mx_mult, mx_multu, mx_divu}
use sys.Mips.Branch.{
  mx_bltz, mx_bgez, mx_bltzal, mx_bgezal, mx_beq, mx_bne, mx_blez, mx_bgtz, mx_jr, mx_jalr, mx_j,
  mx_jal,
}
use sys.Mips.LoadStore.{mx_lb, mx_lh, mx_lwl, mx_lbu, mx_lhu, mx_lwr, mx_sb, mx_sh, mx_swl, mx_swr}
use sys.Mips.LoadStore.Masks.{s_sbyte, s_shalf, s_wordl, s_ubyte, s_uhalf, s_wordr}
use sys.Mips.System.{Host, Insn, pure, mx_syscall, mx_break, mx_sync, mx_lwc, mx_swc, mx_ill}
use sys.Mips.Execute.{special_ops, bcond_ops, main_ops, mx_special, mx_bcond, execute}
use sys.Mips.Isolation.{Kernel, Modes, kernel, modes, Guarded, Alike}
use sys.Mips.Isolation.Branches.{abranch-Guarded, ibranch-Guarded, branch_if-Guarded}
use sys.Mips.Isolation.LoadStores.{
  Kept, doload-Kept, dostore-Kept, mx_lw-Kept, mx_sw-Kept, mx_ll-Kept, mx_sc-Kept,
}
use sys.Mips.Isolation.Steps.{
  Cases, switch-Cases, trap, stalled, checked, mx_div-Kept, mx_cache-Guarded, mx_copz-Kept,
}

module _ (k : Kernel) (m : Modes) (user : m.current_usermode ≡ true) where
  module _ {W : Type 0} (host : Host W) where
    open host use {buses, pages}

    -- What a result has left of it.
    abbrev Left : MipsCpu × W → Type 0
    Left = Kept k m buses

    -- An instruction that leaves the kernel's part alone in user mode.
    abbrev Isolated : Insn W → Type 0
    Isolated f = (insn : ℕ) (s : MipsCpu × W) → Alike k m s.0 → Ensures (f insn s) Left

    mx_ill-Isolated : Isolated (pure mx_ill)
    unfolding mx_ill
    mx_ill-Isolated insn s h = trap k m ex_ri 0 0 s.0 h

    special_ops-Isolated : Cases Isolated (special_ops host)
    unfolding special_ops mx_sll mx_srl mx_sra mx_sllv mx_srlv mx_srav mx_jr mx_jalr mx_syscall
        mx_break mx_sync mx_mfhi mx_mthi mx_mflo mx_mtlo mx_mult mx_multu mx_divu mx_add mx_addu
        mx_sub mx_subu mx_and mx_or mx_xor mx_nor mx_slt mx_sltu
    special_ops-Isolated =
        (λ insn s h. (h.0, inl h.1))
        & (λ insn s h. (h.0, inl h.1))
        & (λ insn s h. (h.0, inl h.1))
        & (λ insn s h. (h.0, inl h.1))
        & (λ insn s h. (h.0, inl h.1))
        & (λ insn s h. (h.0, inl h.1))
        & (λ insn s h. abranch-Guarded k m (pages s.1) _ s.0 h)
        & (λ insn s h. abranch-Guarded k m (pages s.1) _ (set_reg (rd_of insn) s.0.nextpc s.0) h)
        & (λ insn s h. trap k m ex_sys 0 0 s.0 h)
        & (λ insn s h. trap k m ex_bp 0 0 s.0 h)
        & (λ insn s h. (h.0, inl h.1))
        & (λ insn s h. stalled k m (pages s.1) _ s.0 _ s.1 h h)
        & (λ insn s h. stalled k m (pages s.1) _ s.0 _ s.1 h h)
        & (λ insn s h. stalled k m (pages s.1) _ s.0 _ s.1 h h)
        & (λ insn s h. stalled k m (pages s.1) _ s.0 _ s.1 h h)
        & (λ insn s h. stalled k m (pages s.1) _ s.0 _ s.1 h h)
        & (λ insn s h. stalled k m (pages s.1) _ s.0 _ s.1 h h)
        & (λ insn s h. mx_div-Kept k m (pages s.1) insn s h)
        & (λ insn s h. stalled k m (pages s.1) _ s.0 _ s.1 h h)
        & (λ insn s h. checked k m _ _ s.0 h)
        & (λ insn s h. (h.0, inl h.1))
        & (λ insn s h. checked k m _ _ s.0 h)
        & (λ insn s h. (h.0, inl h.1))
        & (λ insn s h. (h.0, inl h.1))
        & (λ insn s h. (h.0, inl h.1))
        & (λ insn s h. (h.0, inl h.1))
        & (λ insn s h. (h.0, inl h.1))
        & (λ insn s h. (h.0, inl h.1))
        & (λ insn s h. (h.0, inl h.1))
        & tt

    mx_special-Isolated : Isolated (mx_special host)
    unfolding mx_special
    mx_special-Isolated insn =
        switch-Cases Isolated (bit_and insn 0x3f) (special_ops host) (pure mx_ill)
          special_ops-Isolated mx_ill-Isolated insn

    bcond_ops-Isolated : Cases Isolated (bcond_ops host)
    unfolding bcond_ops mx_bltz mx_bgez mx_bltzal mx_bgezal
    bcond_ops-Isolated =
        (λ insn s h. branch_if-Guarded k m (pages s.1) _ insn _ h)
        & (λ insn s h. branch_if-Guarded k m (pages s.1) _ insn _ h)
        & (λ insn s h. branch_if-Guarded k m (pages s.1) _ insn _ h)
        & (λ insn s h. branch_if-Guarded k m (pages s.1) _ insn _ h)
        & tt

    mx_bcond-Isolated : Isolated (mx_bcond host)
    unfolding mx_bcond
    mx_bcond-Isolated insn =
        switch-Cases Isolated (rt_of insn) (bcond_ops host) (pure mx_ill) bcond_ops-Isolated
          mx_ill-Isolated insn

    main_ops-Isolated : Cases Isolated (main_ops host)
    unfolding main_ops mx_j mx_jal mx_beq mx_bne mx_blez mx_bgtz mx_addi mx_addiu mx_slti mx_sltiu
        mx_andi mx_ori mx_xori mx_lui mx_lb mx_lh mx_lwl mx_lbu mx_lhu mx_lwr mx_sb mx_sh mx_swl
        mx_swr mx_lwc mx_swc
    main_ops-Isolated =
        mx_special-Isolated
        & mx_bcond-Isolated
        & (λ insn s h. ibranch-Guarded k m (pages s.1) _ s.0 h)
        & (λ insn s h. ibranch-Guarded k m (pages s.1) _ (set_reg 31 s.0.nextpc s.0) h)
        & (λ insn s h. branch_if-Guarded k m (pages s.1) _ insn _ h)
        & (λ insn s h. branch_if-Guarded k m (pages s.1) _ insn _ h)
        & (λ insn s h. branch_if-Guarded k m (pages s.1) _ insn _ h)
        & (λ insn s h. branch_if-Guarded k m (pages s.1) _ insn _ h)
        & (λ insn s h. checked k m _ _ s.0 h)
        & (λ insn s h. (h.0, inl h.1))
        & (λ insn s h. (h.0, inl h.1))
        & (λ insn s h. (h.0, inl h.1))
        & (λ insn s h. (h.0, inl h.1))
        & (λ insn s h. (h.0, inl h.1))
        & (λ insn s h. (h.0, inl h.1))
        & (λ insn s h. (h.0, inl h.1))
        & (λ insn s h. mx_copz-Kept k m user host insn s h)
        & (λ insn s h. mx_copz-Kept k m user host insn s h)
        & (λ insn s h. mx_copz-Kept k m user host insn s h)
        & (λ insn s h. mx_copz-Kept k m user host insn s h)
        & (λ insn s h. doload-Kept k m buses s_sbyte (addr_of insn s.0) (rt_of insn) s h)
        & (λ insn s h. doload-Kept k m buses s_shalf (addr_of insn s.0) (rt_of insn) s h)
        & (λ insn s h. doload-Kept k m buses s_wordl (addr_of insn s.0) (rt_of insn) s h)
        & mx_lw-Kept k m buses
        & (λ insn s h. doload-Kept k m buses s_ubyte (addr_of insn s.0) (rt_of insn) s h)
        & (λ insn s h. doload-Kept k m buses s_uhalf (addr_of insn s.0) (rt_of insn) s h)
        & (λ insn s h. doload-Kept k m buses s_wordr (addr_of insn s.0) (rt_of insn) s h)
        & (λ insn s h. dostore-Kept k m buses s_ubyte (addr_of insn s.0) (s.0.r (rt_of insn)) s h)
        & (λ insn s h. dostore-Kept k m buses s_uhalf (addr_of insn s.0) (s.0.r (rt_of insn)) s h)
        & (λ insn s h. dostore-Kept k m buses s_wordl (addr_of insn s.0) (s.0.r (rt_of insn)) s h)
        & mx_sw-Kept k m buses
        & (λ insn s h. dostore-Kept k m buses s_wordr (addr_of insn s.0) (s.0.r (rt_of insn)) s h)
        & (λ insn s h. mx_cache-Guarded k m user insn s.0 h)
        & mx_ll-Kept k m buses
        & (λ insn s h. trap k m ex_cpu (cn_of insn) 0 s.0 h)
        & (λ insn s h. trap k m ex_cpu (cn_of insn) 0 s.0 h)
        & (λ insn s h. trap k m ex_cpu (cn_of insn) 0 s.0 h)
        & mx_sc-Kept k m buses
        & (λ insn s h. trap k m ex_cpu (cn_of insn) 0 s.0 h)
        & (λ insn s h. trap k m ex_cpu (cn_of insn) 0 s.0 h)
        & (λ insn s h. trap k m ex_cpu (cn_of insn) 0 s.0 h)
        & tt

    execute-Isolated : Isolated (execute host)
    unfolding execute
    execute-Isolated insn =
        switch-Cases Isolated (bit_and insn 0xfc00_0000 / 2 ^ 26) (main_ops host) (pure mx_ill)
          main_ops-Isolated mx_ill-Isolated insn

-- In user mode, an instruction that ends leaves alone what belongs to the kernel (the tlb and
-- its index, the interrupt masks and the other fields of the status register, the soft
-- interrupts, the count and compare registers, and whether the cpu runs); the modes stay as
-- they were, or it has taken an exception: the cpu is at one of the four handlers, in kernel
-- mode with interrupts off, with the modes saved.
pub execute-Guarded :
    {W : Type 0} (host : Host W) (insn : ℕ) (cpu : MipsCpu) (w : W)
    → cpu.current_usermode ≡ true
    → Ensures (execute host insn (cpu, w)) (λ (cpu', w'). Guarded (kernel cpu) (modes cpu) cpu')
execute-Guarded host insn cpu w user =
    execute-Isolated (kernel cpu) (modes cpu) user host insn (cpu, w) (refl, refl)
