-- ===== src/Bus/Cpue.antt =====
-- Turning cpus on and off: `get_cpue` and `set_cpue`.
pub mod RoundTrip
use sys.Base.{
  ℕ, ◌+◌, ◌*◌, ◌^◌, Bool, true, false, not, ◌&&◌, List, [], ◌∷◌, bit_and, bit_or, get_or,
  if◌then◌else◌, u32,
}
use sys.Base.Bits.{nonzero}
use sys.Bus.State.{LamebusCpu, Bus, Port, slot_mem, controller_slot, config_size}

-- The loop of `get_cpue` from cpu `i` on, with `ret` so far.
unfoldable pub get_cpue_from : ℕ → List LamebusCpu → ℕ → ℕ
get_cpue_from i [] ret = ret
get_cpue_from i (cpu ∷ rest) ret =
    get_cpue_from (i + 1) rest (if cpu.enabled then bit_or ret (2 ^ i) else ret)

unfoldable pub get_cpue : Bus → ℕ
unfolding get_cpue_from
get_cpue b = get_cpue_from 0 b.cpus 0

abbrev pub cram_end : ℕ
cram_end = 0x400

module _ {W : Type 0} (port : Port W) where
  -- Turning on cpu `i`, the second branch of the loop of `set_cpue`. The scratch memory has two
  -- words or more, so that the default is not reached.
  unfoldable pub turn_on : ℕ → LamebusCpu → W → W
  turn_on i cpu w =
      let cramoffset = slot_mem * controller_slot + 32768 + i * config_size + cram_end in
      let w₁ = port.cpu_set_entrypoint i (get_or cpu.cram 0 0) w in
      let w₂ = port.cpu_set_stack i (port.start_stack cramoffset) (get_or cpu.cram 1 0) w₁ in
      port.cpu_enable i w₂

  -- The body of the loop of `set_cpue`, at cpu `i`.
  unfoldable pub set_cpue_cpu : ℕ → ℕ → LamebusCpu → W → LamebusCpu × W
  unfolding turn_on
  set_cpue_cpu val i cpu w =
      let thisbit = nonzero (bit_and val (2 ^ i)) in
      if cpu.enabled && not thisbit
      then (record cpu { enabled = false }, port.cpu_disable i w)
      else if not cpu.enabled && thisbit
      then (cpu, turn_on i cpu w)
      else (cpu, w)

  unfoldable pub set_cpue_from : ℕ → ℕ → List LamebusCpu → W → List LamebusCpu × W
  unfolding set_cpue_cpu
  set_cpue_from val i [] w = ([], w)
  set_cpue_from val i (cpu ∷ rest) w =
      let (cpu', w') = set_cpue_cpu val i cpu w in
      let (rest', w'') = set_cpue_from val (i + 1) rest w' in (cpu' ∷ rest', w'')

  unfoldable pub set_cpue : ℕ → Bus × W → Bus × W
  unfolding set_cpue_from
  set_cpue val (b, w) =
      let (cpus', w') = set_cpue_from val 0 b.cpus w in (record b { cpus = cpus' }, w')
