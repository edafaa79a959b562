-- ===== src/Mips/Memory.antt =====
-- Virtual and physical memory: `translatemem`, `debug_translatemem`, `accessmem`, `domem`.
pub mod Debug
pub mod Layout
pub mod Translation
use sys.Base.{
  ℕ, ◌+◌, ◌-◌, ◌*◌, ◌/◌, ◌%◌, ◌^◌, Bool, true, false, not, ◌&&◌, ◌||◌, ◌==◌, if◌then◌else◌, ltb,
  leb, Option, none, some, bit_and, bit_or, Outcome, ok, ◌>>=◌,
}
use sys.Base.Bits.{nonzero}
use sys.Mips.State.{MipsTlb, MipsCpu, ex_mod, ex_tlbl, ex_tlbs, ex_adel, ex_ades, ex_dbe}
use sys.Mips.Tlb.{pageframe, findtlb}
use sys.Mips.Exception.{exception}

abbrev pub kernel_start : ℕ
kernel_start = 0x8000_0000

-- Through an entry of the tlb: the physical address, and the faults of an entry that is not valid
-- or not writable.
unfoldable pub through : MipsTlb → ℕ → Bool → MipsCpu → Option ℕ × MipsCpu
unfolding exception
through mt vaddr iswrite cpu =
    if not mt.is_valid
    then (none, exception (if iswrite then ex_tlbs else ex_tlbl) 0 vaddr cpu)
    else if iswrite && not mt.is_dirty
    then (none, exception ex_mod 0 vaddr cpu)
    else (some (bit_or mt.pfn (bit_and vaddr 0xfff)), cpu)

-- `translatemem`: a `none` for the -1, with the exception taken.
unfoldable pub translatemem : ℕ → Bool → MipsCpu → Option ℕ × MipsCpu
unfolding exception findtlb through
translatemem vaddr iswrite cpu =
    if (leb kernel_start vaddr && cpu.current_usermode) || nonzero (bit_and vaddr 3)
    then (none, exception (if iswrite then ex_ades else ex_adel) 0 vaddr cpu)
    else if vaddr / 2 ^ 30 == 2
    then (some (bit_and vaddr 0x1fff_ffff), cpu)
    else let vpage = bit_and vaddr pageframe in
      let cpu' = record cpu { tlbentry = record cpu.tlbentry { vpn = vpage } } in
      elim (findtlb vpage cpu') [
        | none ↦ (
          none,
          exception (if iswrite then ex_tlbs else ex_tlbl) (if ltb vaddr kernel_start then 1 else 0)
              vaddr cpu',
        )
        | some (ix, mt) ↦ through mt vaddr iswrite cpu'
      ]

-- The same for the debugger.
unfoldable pub debug_through : MipsTlb → ℕ → Bool → Option ℕ
debug_through mt vaddr iswrite =
    if not mt.is_valid
    then none
    else if iswrite && not mt.is_dirty
    then none
    else some (bit_or mt.pfn (bit_and vaddr 0xfff))

unfoldable pub debug_translatemem : ℕ → Bool → MipsCpu → Option ℕ
unfolding findtlb debug_through
debug_translatemem vaddr iswrite cpu =
    if nonzero (bit_and vaddr 3)
    then none
    else if vaddr / 2 ^ 30 == 2
    then some (bit_and vaddr 0x1fff_ffff)
    else elim (findtlb (bit_and vaddr pageframe) cpu) [
      | none ↦ none
      | some (ix, mt) ↦ debug_through mt vaddr iswrite
    ]

-- What a physical address reaches, with the offset there.
pub data Place : Type 0 where
  ram rom io : ℕ → Place

-- The tests of `accessmem`.
unfoldable pub place : ℕ → Place
place paddr =
    if ltb paddr 0x1fc0_0000
    then Place.ram paddr
    else if ltb paddr 0x1fe0_0000
    then Place.rom (paddr - 0x1fc0_0000)
    else if ltb paddr 0x2000_0000
    then Place.io (paddr - 0x1fe0_0000)
    else Place.ram (paddr - 0x0040_0000)

-- The bus and the boot rom as `accessmem` calls them; a `none` for a bus error.
pub record Buses (W : Type 0) : Type 0 where
  pub bus_mem_fetch : ℕ → W → Option ℕ
  pub bus_mem_store : ℕ → ℕ → W → Option W
  pub bootrom_fetch : ℕ → Option ℕ
  pub bus_io_fetch : ℕ → ℕ → W → Outcome (Option ℕ × W)
  pub bus_io_store : ℕ → ℕ → ℕ → W → Outcome (Option W)

module _ {W : Type 0} (buses : Buses W) where
  open buses use {bus_mem_fetch, bus_mem_store, bootrom_fetch, bus_io_fetch, bus_io_store}

  -- The reads of `accessmem`: the value, or the bus error.
  unfoldable pub read_place : ℕ → Place → W → Outcome (Option ℕ × W)
  read_place cpunum (Place.ram a) w = ok (bus_mem_fetch a w, w)
  read_place cpunum (Place.rom a) w = ok (bootrom_fetch a, w)
  read_place cpunum (Place.io a) w = bus_io_fetch cpunum a w

  unfoldable pub write_place : ℕ → Place → ℕ → W → Outcome (Option W)
  write_place cpunum (Place.ram a) val w = ok (bus_mem_store a val w)
  write_place cpunum (Place.rom a) val w = ok none
  write_place cpunum (Place.io a) val w = bus_io_store cpunum a val w

  -- `accessmem` with `iswrite` false: a `none` for the -1, with the exception taken.
  unfoldable pub accessmem_read : ℕ → MipsCpu × W → Outcome (Option ℕ × (MipsCpu × W))
  unfolding exception place read_place
  accessmem_read paddr (cpu, w) = read_place cpu.cpunum (place paddr) w >>= λ (r, w'). elim r [
    | none ↦ ok (none, (exception ex_dbe 0 0 cpu, w'))
    | some val ↦ ok (some val, (cpu, w'))
  ]

  -- With `iswrite` true; false for the -1.
  unfoldable pub accessmem_write : ℕ → ℕ → MipsCpu × W → Outcome (Bool × (MipsCpu × W))
  unfolding exception place write_place
  accessmem_write paddr val (cpu, w) = write_place cpu.cpunum (place paddr) val w >>= λ r. elim r [
    | none ↦ ok (false, (exception ex_dbe 0 0 cpu, w))
    | some w' ↦ ok (true, (cpu, w'))
  ]

  -- `domem` for a read; `willbewrite` tells of a write later in the cycle.
  unfoldable pub domem_read : ℕ → Bool → MipsCpu × W → Outcome (Option ℕ × (MipsCpu × W))
  unfolding translatemem accessmem_read
  domem_read vaddr willbewrite (cpu, w) =
      let (r, cpu') = translatemem vaddr willbewrite cpu in
      elim r [ none ↦ ok (none, (cpu', w)) | some paddr ↦ accessmem_read paddr (cpu', w) ]

  -- `domem` for a write.
  unfoldable pub domem_write : ℕ → ℕ → Bool → MipsCpu × W → Outcome (Bool × (MipsCpu × W))
  unfolding translatemem accessmem_write
  domem_write vaddr val willbewrite (cpu, w) =
      let (r, cpu') = translatemem vaddr willbewrite cpu in
      elim r [ none ↦ ok (false, (cpu', w)) | some paddr ↦ accessmem_write paddr val (cpu', w) ]
