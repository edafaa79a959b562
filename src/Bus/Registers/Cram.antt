-- ===== src/Bus/Registers/Cram.antt =====
-- The scratch memory of a cpu, through the registers of the controller.
use sys.Base.{
  get_elem?-in, get_elem?-out, ℕ, ◌+◌, ◌-◌, ◌*◌, ◌/◌, ◌%◌, ◌≤◌, ◌<◌, ◌≡◌, refl, true, false, Option,
  some, none, get_elem?, length, get_elem?-set_self, length-set, ltb, leb, ok, undefined, ◌>>=◌,
  Returns, arith,
}
use sys.Bus.State.{LamebusCpu, Bus, Port, config_size, cram_words}
use sys.Bus.Registers.{
  cram_start, cram_end, cram_word, set_cram_word, fetch_cpu_register, in_cram, DeviceId,
  controller_region, controller_fetch_cpu, controller_fetch, controller_store,
}

-- With a scratch memory of 128 bytes, in the first half of the scratch range a store succeeds and
-- keeps the size, and the word that is stored is the word that is fetched.
set_cram_word-fetch :
    (cpu : LamebusCpu) (offset val : ℕ)
    → length cpu.cram ≡ cram_words
    → cram_start ≤ offset
    → offset < cram_start + 128
    → Returns
        (set_cram_word cpu (offset - cram_start) val)
        (λ cpu'. (fetch_cpu_register cpu' offset ≡ ok (some val)) × (length cpu'.cram ≡ cram_words))
unfolding set_cram_word fetch_cpu_register
set_cram_word-fetch cpu offset val size lo hi =
    let i = (offset - cram_start) / 4 in
    let inside : in_cram offset ≡ true = ground arith in
    let (v, old) = get_elem?-in cpu.cram i (omega arith) in
    rw (old, set_cram_word, inside, get_elem?-set_self cpu.cram i val (omega arith), cram_word)
      (refl, omega (arith, length-set cpu.cram i val))

cram_word_overflow :
    (cpu : LamebusCpu) (offset val : ℕ)
    → length cpu.cram ≡ cram_words
    → cram_start + 128 ≤ offset
    → offset < cram_end
    → (fetch_cpu_register cpu offset ≡ undefined)
      × (set_cram_word cpu (offset - cram_start) val ≡ undefined)
unfolding set_cram_word fetch_cpu_register
cram_word_overflow cpu offset val size lo hi =
    let out : get_elem? cpu.cram ((offset - cram_start) / 4) ≡ none =
      get_elem?-out cpu.cram ((offset - cram_start) / 4) (omega arith) in
    let inside : in_cram offset ≡ true = ground arith in
    rw (inside, out, cram_word, set_cram_word) (refl, refl)

-- The controller accepts the scratch range of a cpu up to 0x400, but the memory has 128 bytes: a
-- fetch from the second half of the range reads outside it, and a store writes outside it.
pub cram_overflow :
    {W : Type 0} (port : Port W) (devices : ℕ → Option DeviceId) (cpunum region offset val : ℕ)
    (b : Bus) (w : W) (cpu : LamebusCpu)
    → region < 32
    → get_elem? b.cpus region ≡ some cpu
    → length cpu.cram ≡ cram_words
    → cram_start + 128 ≤ offset
    → offset < cram_end
    → (controller_fetch port devices cpunum false (32768 + region * config_size + offset) (b, w)
        ≡ undefined)
      × (controller_store port false (32768 + region * config_size + offset) val (b, w) ≡ undefined)
unfolding controller_fetch controller_store
cram_overflow port devices cpunum region offset val b w cpu hr found size lo hi =
    let address = 32768 + region * config_size + offset in
    let high : leb 32768 address ≡ true = ground arith in
    let area : (address - 32768) / config_size ≡ region = omega arith in
    let off : (address - 32768) % config_size ≡ offset = omega arith in
    let slot : ltb region 32 ≡ true = ground arith in
    let inside : in_cram offset ≡ true = ground arith in
    let over = cram_word_overflow cpu offset val size lo hi in
    (
      rw (high, controller_fetch_cpu, controller_region, area, off, slot, found, ◌>>=◌, over.0),
      rw (high, area, off, slot, found, ◌>>=◌, inside, over.1),
    )
