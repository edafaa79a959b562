-- ===== src/Bus/Init.antt =====
-- The start of the bus controller: `lamebus_commonmainboard_init`, behind the parsing of its options.
pub mod Start
use sys.Base.{
  ℕ, zero, suc, ◌==◌, ◌||◌, ltb, if◌then◌else◌, Bool, true, false, List, [], ◌∷◌, Outcome, ok,
  smoke, u32,
}
use sys.Bus.State.{LamebusCpu, Bus}

-- A cpu as it is set up; `cram` is what the memory holds that `domalloc` gives.
abbrev pub new_cpu : List ℕ → LamebusCpu
new_cpu cram = record {
  enabled = false;
  enabled_interrupts = 0xffff_ffff;
  interrupting = false;
  ipi = false;
  cram = cram;
}

-- The loop over the cpus, from cpu `i` on.
unfoldable pub new_cpus : (ℕ → List ℕ) → ℕ → ℕ → List LamebusCpu
new_cpus cram zero i = []
new_cpus cram (suc n) i = new_cpu (cram i) ∷ new_cpus cram n (suc i)

-- `cpus[0].cpu_enabled = 1`.
unfoldable pub enable_first : List LamebusCpu → List LamebusCpu
enable_first [] = []
enable_first (cpu ∷ rest) = record cpu { enabled = true } ∷ rest

-- The options `ramsize`, `cpus` and `cores` come as numbers, of which the last two are the
-- `unsigned long` that `strtoul` gives; a `die` is a `smoke`.
unfoldable pub commonmainboard_init : (ℕ → List ℕ) → ℕ → ℕ → ℕ → Outcome Bus
unfolding new_cpus enable_first
commonmainboard_init cram ramsize tmp_ncpus ncores =
    if tmp_ncpus == 0 || ncores == 0
    then smoke
    else if ltb 1 ncores
    then smoke
    else if ltb 32 tmp_ncpus
    then smoke
    else ok (record {
      ramsize = ramsize;
      raised = 0;
      enabled_irqs = 0xffff_ffff;
      cpus = enable_first (new_cpus cram tmp_ncpus 0);
    })
