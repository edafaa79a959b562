-- ===== src/Mips/Isolation/Steps.antt =====
-- What the instructions in user mode have in common, and those of the system coprocessor.
use sys.Base.{
  ℕ, ◌≡◌, ap, ◌∙◌, Bool, true, false, not, ◌||◌, ◌&&◌, ◌==◌, if◌then◌else◌, List, [], ◌∷◌, inl,
  ◌>>=◌, Outcome, ok, undefined, Ensures, Ensures->>=,
}
use mathlib.Core.Bool.{false≢true}
use sys.Base.Ints.{ℤ, pos, negsuc, eqb_ℤ, ltb_ℤ, int32, word32, tdiv, tmod}
use sys.Mips.State.{MipsCpu, set_reg, ex_ovf, ex_cpu}
use sys.Mips.Exception.{exception}
use sys.Mips.Pages.{Pages, phony_exception}
use sys.Mips.Pages.Found.{phony_exception-keeps}
use sys.Mips.Fields.{cn_of}
use sys.Mips.Alu.{store_checked, rs_signed, rt_signed}
use sys.Mips.Alu.Multiply.{busy_hilo, set_hilo, unless_busy, div_results, mx_div}
use sys.Mips.System.{Host, switch, mx_copz, mx_cache}
use sys.Mips.Isolation.{Kernel, Modes, Guarded, Alike, exception-Guarded}

-- A property of each case of a `switch`, and of its default, is one of the `switch`.
abbrev pub Cases : {A : Type 0} → (A → Type 0) → List (ℕ × A) → Type 0
Cases P [] = Unit
Cases P ((i, a) ∷ cases) = P a × Cases P cases

pub switch-Cases :
    {A : Type 0} (P : A → Type 0) (op : ℕ) (cases : List (ℕ × A)) (d : A)
    → Cases P cases
    → P d
    → P (switch op cases d)
unfolding switch
switch-Cases P op [] d ps p = p
switch-Cases P op ((i, a) ∷ cases) d (pa, ps) p =
    let rest = switch-Cases P op cases d ps p in
    elim (op == i) as (λ b. P (if b then a else switch op cases d)) [ true ↦ pa | false ↦ rest ]

module _ (k : Kernel) (m : Modes) where
  pub trap :
      (code cn vaddr : ℕ) (cpu : MipsCpu)
      → Alike k m cpu
      → Guarded k m (exception code cn vaddr cpu)
  trap = exception-Guarded k m

  waited :
      {W : Type 0} (pages : Pages) (cpu : MipsCpu) (w : W)
      → Alike k m cpu
      → Ensures {A = MipsCpu × W}
          (phony_exception pages cpu >>= λ c. ok (c, w))
          (λ s'. Guarded k m s'.0)
  waited pages cpu w h =
      Ensures->>= (phony_exception pages cpu) (λ c. ok (c, w)) (Alike k m) (λ s'. Guarded k m s'.0)
        (phony_exception-keeps pages (Alike k m) (λ mt c a. a) (λ pc nextpc c a. a) cpu h)
        (λ c a. (a.0, inl a.1))

  pub stalled :
      {W : Type 0} (pages : Pages) (busy : Bool) (cpu done : MipsCpu) (w : W)
      → Alike k m cpu
      → Alike k m done
      → Ensures {A = MipsCpu × W}
          (unless_busy pages busy cpu done >>= λ c. ok (c, w))
          (λ s'. Guarded k m s'.0)
  unfolding unless_busy
  stalled pages true cpu done w h h' = waited pages cpu w h
  stalled pages false cpu done w h h' = (h'.0, inl h'.1)

  pub checked :
      (i : ℕ) (t : ℤ) (cpu : MipsCpu) → Alike k m cpu → Guarded k m (store_checked i t cpu)
  unfolding store_checked
  checked i t cpu h =
      elim (eqb_ℤ (int32 (word32 t)) t)
        as (λ b.
          Guarded k m (if not b then exception ex_ovf 0 0 cpu else set_reg i (word32 t) cpu)) [
            | true ↦ (h.0, inl h.1)
            | false ↦ trap ex_ovf 0 0 cpu h
          ]

  pub mx_div-Kept :
      {W : Type 0} (pages : Pages) (insn : ℕ) (s : MipsCpu × W)
      → Alike k m s.0
      → Ensures {A = MipsCpu × W}
          (mx_div pages insn s.0 >>= λ c. ok (c, s.1))
          (λ s'. Guarded k m s'.0)
  unfolding mx_div div_results
  mx_div-Kept {W = W} pages insn (cpu, w) h =
      go (busy_hilo cpu) (eqb_ℤ b (pos 0)) (eqb_ℤ a (negsuc 0x7fff_ffff) && eqb_ℤ b (negsuc 0))
    where
      a : ℤ
      a = rs_signed insn cpu

      b : ℤ
      b = rt_signed insn cpu

      go :
          (busy zero over : Bool)
          → Ensures {A = MipsCpu × W}
              ((if busy
                  then phony_exception pages cpu
                  else if zero
                  then ok (set_hilo (if ltb_ℤ a (pos 0) then 0xffff_ffff else 0x7fff_ffff) 0 cpu)
                  else if over
                  then undefined
                  else ok (set_hilo (word32 (tdiv a b)) (word32 (tmod a b)) cpu))
                >>= λ c. ok (c, w))
              (λ s'. Guarded k m s'.0)
      go true zero over = waited pages cpu w h
      go false true over = (h.0, inl h.1)
      go false false true = tt
      go false false false = (h.0, inl h.1)

module _ (k : Kernel) (m : Modes) (user : m.current_usermode ≡ true) where
  in_usermode : (cpu : MipsCpu) → Alike k m cpu → cpu.current_usermode ≡ true
  in_usermode cpu h = ap (λ m. m.current_usermode) h.1 ∙ user

  -- A test of user mode that comes first.
  refused : (b : Bool) (x y : MipsCpu) → b ≡ true → Guarded k m x → Guarded k m (if b then x else y)
  refused true x y e p = p
  refused false x y e p = absurd (false≢true e)

  pub mx_cache-Guarded :
      (insn : ℕ) (cpu : MipsCpu) → Alike k m cpu → Guarded k m (mx_cache insn cpu)
  unfolding mx_cache
  mx_cache-Guarded insn cpu h =
      refused cpu.current_usermode (exception ex_cpu 0 0 cpu) _ (in_usermode cpu h)
        (trap k m ex_cpu 0 0 cpu h)

  pub mx_copz-Kept :
      {W : Type 0} (host : Host W) (insn : ℕ) (s : MipsCpu × W)
      → Alike k m s.0
      → Ensures (mx_copz host insn s) (λ s'. Guarded k m s'.0)
  unfolding mx_copz
  mx_copz-Kept {W = W} host insn (cpu, w) h =
      refused_or (not (cn_of insn == 0)) cpu.current_usermode _ (in_usermode cpu h)
    where
      refused_or :
          (other usermode : Bool) (rest : Outcome (MipsCpu × W))
          → usermode ≡ true
          → Ensures
              (if other || usermode then ok (exception ex_cpu (cn_of insn) 0 cpu, w) else rest)
              (λ s'. Guarded k m s'.0)
      refused_or true usermode rest e = trap k m ex_cpu (cn_of insn) 0 cpu h
      refused_or false true rest e = trap k m ex_cpu (cn_of insn) 0 cpu h
      refused_or false false rest e = absurd (false≢true e)
