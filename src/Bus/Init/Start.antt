-- ===== src/Bus/Init/Start.antt =====
-- The controller starts in a state that satisfies the invariants of its other operations.
use sys.Base.{
  ℕ, zero, suc, ◌+◌, ◌≤◌, ◌<◌, ◌≡◌, ◌≢◌, ◌⊎◌, refl, false, ◌||◌, ◌==◌, inl, inr, Bool-cases, List,
  ltb, length, bit_and, ok, smoke, arith,
}
use sys.Bus.State.{Bus, Port}
use sys.Bus.Irq.Lines.{AllRight, Agree, IsConsistent}
use sys.Bus.Cpue.{get_cpue_from, get_cpue}
use sys.Bus.Init.{new_cpus, enable_first, commonmainboard_init}

module _ {W : Type 0} (port : Port W) (w : W) where
  new_cpus-AllRight :
      (cram : ℕ → List ℕ) (n i mask : ℕ)
      → bit_and mask 0xffff_ffff ≡ 0
      → AllRight mask (new_cpus cram n i)
  unfolding new_cpus
  new_cpus-AllRight cram zero i mask e = tt
  new_cpus-AllRight cram (suc n) i mask e = (rw e refl, new_cpus-AllRight cram n (suc i) mask e)

  new_cpus-Agree :
      (cram : ℕ → List ℕ) (n i k : ℕ)
      → ((j : ℕ) → port.lines w j ≡ (false, false))
      → Agree port k (new_cpus cram n i) w
  unfolding new_cpus
  new_cpus-Agree cram zero i k down = tt
  new_cpus-Agree cram (suc n) i k down = (down k, new_cpus-Agree cram n (suc i) (k + 1) down)

  length-new_cpus : (cram : ℕ → List ℕ) (n i : ℕ) → length (new_cpus cram n i) ≡ n
  unfolding new_cpus
  length-new_cpus cram zero i = refl
  length-new_cpus cram (suc n) i = omega (arith, length-new_cpus cram n (suc i))

  get_cpue_from-new_cpus :
      (cram : ℕ → List ℕ) (n i k ret : ℕ) → get_cpue_from k (new_cpus cram n i) ret ≡ ret
  unfolding get_cpue_from new_cpus
  get_cpue_from-new_cpus cram zero i k ret = refl
  get_cpue_from-new_cpus cram (suc n) i k ret = get_cpue_from-new_cpus cram n (suc i) (k + 1) ret

  -- The controller with `suc n` cpus.
  abbrev started : (ℕ → List ℕ) → ℕ → ℕ → Bus
  started cram ramsize n = record {
    ramsize = ramsize;
    raised = 0;
    enabled_irqs = 0xffff_ffff;
    cpus = enable_first (new_cpus cram (suc n) 0);
  }

  started_lem :
      (cram : ℕ → List ℕ) (ramsize n : ℕ)
      → ((j : ℕ) → port.lines w j ≡ (false, false))
      → (length (started cram ramsize n).cpus ≡ suc n)
        × (get_cpue (started cram ramsize n) ≡ 1)
        × IsConsistent port (started cram ramsize n, w)
  unfolding enable_first new_cpus get_cpue
  started_lem cram ramsize n down = (
    omega (arith, length-new_cpus cram n 1),
    get_cpue_from-new_cpus cram n 1 1 1,
    ((refl, new_cpus-AllRight cram n 1 0 refl), (down 0, new_cpus-Agree cram n 1 1 down)),
  )

  -- The initialisation dies unless it is given one core and from 1 to 32 cpus. Then it makes that
  -- many cpus, of which the CPUE register shows cpu 0 as on and no other, and with every line of
  -- the cpus down the invariant of the interrupt lines holds.
  pub commonmainboard_init_lem :
      (cram : ℕ → List ℕ) (ramsize tmp_ncpus ncores : ℕ)
      → ((j : ℕ) → port.lines w j ≡ (false, false))
      → (((tmp_ncpus ≡ 0) ⊎ (32 < tmp_ncpus) ⊎ (ncores ≢ 1))
          × (commonmainboard_init cram ramsize tmp_ncpus ncores ≡ smoke))
        ⊎ ((ncores ≡ 1)
            × (0 < tmp_ncpus)
            × (tmp_ncpus ≤ 32)
            × (b : Bus) × (commonmainboard_init cram ramsize tmp_ncpus ncores ≡ ok b)
            × (length b.cpus ≡ tmp_ncpus)
            × (get_cpue b ≡ 1)
            × IsConsistent port (b, w))
  unfolding commonmainboard_init
  commonmainboard_init_lem cram ramsize zero ncores down = inl (inl refl, refl)
  commonmainboard_init_lem cram ramsize (suc n) ncores down =
      elim (Bool-cases (suc n == 0 || ncores == 0)) [
        | inl none ↦ rw none (inl (inr (inr (λ e. ground arith)), refl))
        | inr some ↦ elim (Bool-cases (ltb 1 ncores)) [
          | inl many ↦ rw (some, many) (inl (inr (inr (λ e. ground arith)), refl))
          | inr one ↦ elim (Bool-cases (ltb 32 (suc n))) [
            | inl over ↦ rw (some, one, over) (inl (inr (inl (ground arith)), refl))
            | inr fits ↦
                rw (some, one, fits)
                  (inr (
                    ground arith,
                    omega arith,
                    ground arith,
                    started cram ramsize n,
                    refl,
                    (started_lem cram ramsize n down).0,
                    (started_lem cram ramsize n down).1,
                    (started_lem cram ramsize n down).2,
                  ))
          ]
        ]
      ]
