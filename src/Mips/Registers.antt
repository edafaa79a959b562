-- ===== src/Mips/Registers.antt =====
-- The system registers of sys161/mipseb/mipscore.h: `getstatus` to `domt`.
pub mod RoundTrip
use sys.Base.{
  ℕ, ◌+◌, ◌*◌, ◌/◌, ◌%◌, ◌^◌, Bool, true, false, not, ◌||◌, ◌==◌, if◌then◌else◌, ltb, Option, none,
  some, bit_and, bit_or, u32,
}
use sys.Base.Bits.{nonzero}
use sys.Mips.State.{MipsCpu, ex_ri, ex_cpu, set_reg}
use sys.Mips.Tlb.{flag, tlbgetlo, tlbgethi, tlbsetlo, tlbsethi}
use sys.Mips.Exception.{exception}

unfoldable pub getstatus : MipsCpu → ℕ
getstatus cpu =
    let val = bit_or cpu.status_copenable (if cpu.status_bootvectors then 0x0040_0000 else 0) in
    let val = bit_or val cpu.status_hardmask_timer in
    let val = bit_or val cpu.status_hardmask_void in
    let val = bit_or val cpu.status_hardmask_fpu in
    let val = bit_or val cpu.status_hardmask_ipi in
    let val = bit_or val cpu.status_hardmask_lb in
    let val = bit_or val cpu.status_softmask in
    flag cpu.current_irqon 0x01 (
      flag cpu.current_usermode 0x02 (
        flag cpu.prev_irqon 0x04
          (flag cpu.prev_usermode 0x08 (flag cpu.old_irqon 0x10 (flag cpu.old_usermode 0x20 val)))))

-- What `setstatus` stores.
unfoldable pub store_status : ℕ → MipsCpu → MipsCpu
store_status val cpu = record cpu {
  status_copenable = bit_and val 0xf000_0000;
  status_bootvectors = nonzero (bit_and val 0x0040_0000);
  status_hardmask_timer = bit_and val 0x8000;
  status_hardmask_void = bit_and val 0x5000;
  status_hardmask_fpu = bit_and val 0x2000;
  status_hardmask_ipi = bit_and val 0x0800;
  status_hardmask_lb = bit_and val 0x0400;
  status_softmask = bit_and val 0x0300;
  old_usermode = nonzero (bit_and val 0x20);
  old_irqon = nonzero (bit_and val 0x10);
  prev_usermode = nonzero (bit_and val 0x08);
  prev_irqon = nonzero (bit_and val 0x04);
  current_usermode = nonzero (bit_and val 0x02);
  current_irqon = nonzero (bit_and val 0x01);
}

-- `setstatus`; it goes on after the `hang`.
unfoldable pub setstatus : {W : Type 0} → (W → W) → ℕ → MipsCpu × W → MipsCpu × W
unfolding store_status
setstatus hang val (cpu, w) =
    (store_status val cpu, if nonzero (bit_and val 0x0003_0000) then hang w else w)

unfoldable pub getcause : MipsCpu → ℕ
getcause cpu =
    let val = bit_or (bit_or cpu.cause_ce cpu.cause_softirq) cpu.cause_code in
    flag cpu.irq_timer 0x8000
      (flag cpu.irq_ipi 0x0800 (flag cpu.irq_lamebus 0x0400 (flag cpu.cause_bd 0x8000_0000 val)))

unfoldable pub setcause : ℕ → MipsCpu → MipsCpu
setcause val cpu = record cpu { cause_softirq = bit_and val 0x0300 }

unfoldable pub getindex : MipsCpu → ℕ
getindex cpu = flag cpu.tlbpf 0x8000_0000 (u32 (cpu.tlbindex * 2 ^ 8))

unfoldable pub setindex : ℕ → MipsCpu → MipsCpu
setindex val cpu = record cpu {
  tlbindex = bit_and (val / 2 ^ 8) 63;
  tlbpf = nonzero (bit_and val 0x8000_0000);
}

-- `cpu->tlbrandom %= RANDREG_MAX`, as `getrandom` and `tlbwr` begin.
abbrev pub reduce_random : MipsCpu → MipsCpu
reduce_random cpu = record cpu { tlbrandom = cpu.tlbrandom % 56 }

unfoldable pub getrandom : MipsCpu → ℕ × MipsCpu
getrandom cpu = let cpu' = reduce_random cpu in ((cpu'.tlbrandom + 8) * 2 ^ 8, cpu')

-- `REGSEL`.
abbrev pub regsel : ℕ → ℕ → ℕ
regsel reg sel = bit_or (reg * 2 ^ 3) sel

-- The registers that `domf` reads and does nothing else: a `none` where there is no such one.
unfoldable pub read_c0 : ℕ → MipsCpu → Option ℕ
unfolding getstatus getcause getindex
read_c0 rs cpu =
    if rs == regsel 0 0
    then some (getindex cpu)
    else if rs == regsel 2 0
    then some (tlbgetlo cpu.tlbentry)
    else if rs == regsel 4 0
    then some cpu.ex_context
    else if rs == regsel 8 0
    then some cpu.ex_vaddr
    else if rs == regsel 9 0
    then some cpu.ex_count
    else if rs == regsel 10 0
    then some (tlbgethi cpu.tlbentry)
    else if rs == regsel 11 0
    then some cpu.ex_compare
    else if rs == regsel 12 0
    then some (getstatus cpu)
    else if rs == regsel 13 0
    then some (getcause cpu)
    else if rs == regsel 14 0
    then some cpu.ex_epc
    else if rs == regsel 15 0
    then some cpu.ex_prid
    else if rs == regsel 15 1
    then some cpu.ex_cfeat
    else if rs == regsel 15 2
    then some cpu.ex_ifeat
    else if rs == regsel 16 0
    then some cpu.ex_config0
    else if rs == regsel 16 1
    then some cpu.ex_config1
    else none

-- `domf`, with the general register that `greg` points at.
unfoldable pub domf : ℕ → ℕ → ℕ → ℕ → MipsCpu → MipsCpu
unfolding exception getrandom read_c0
domf cn reg sel greg cpu =
    if not (cn == 0) || cpu.current_usermode
    then exception ex_cpu cn 0 cpu
    else if regsel reg sel == regsel 1 0
    then (let (val, cpu') = getrandom cpu in set_reg greg val cpu')
    else elim (read_c0 (regsel reg sel) cpu) [
      | none ↦ exception ex_ri cn 0 cpu
      | some val ↦ set_reg greg val cpu
    ]

-- The store to COMPARE in `domt`.
unfoldable pub store_compare : ℕ → MipsCpu → MipsCpu
store_compare val cpu = record cpu {
  ex_compare = val;
  ex_compare_used = true;
  ex_count = if ltb val cpu.ex_count then 0 else cpu.ex_count;
  irq_timer = false;
}

-- The registers to which `domt` ignores a store: RANDOM, EPC, PRID, CFEAT, IFEAT and CONFIG0 to
-- CONFIG7.
unfoldable pub read_only : ℕ → Bool
read_only rs =
    rs == regsel 1 0
    || rs == regsel 14 0
    || rs == regsel 15 0
    || rs == regsel 15 1
    || rs == regsel 15 2
    || rs / 8 == 16

unfoldable pub domt : {W : Type 0} → (W → W) → ℕ → ℕ → ℕ → ℕ → MipsCpu × W → MipsCpu × W
unfolding exception setstatus setcause setindex store_compare read_only
domt hang cn reg sel greg (cpu, w) =
    let rs = regsel reg sel in
    if not (cn == 0) || cpu.current_usermode
    then (exception ex_cpu cn 0 cpu, w)
    else if rs == regsel 0 0
    then (setindex greg cpu, w)
    else if rs == regsel 2 0
    then (record cpu { tlbentry = tlbsetlo greg cpu.tlbentry }, w)
    else if rs == regsel 4 0
    then (record cpu { ex_context = greg }, w)
    else if rs == regsel 8 0
    then (record cpu { ex_vaddr = greg }, w)
    else if rs == regsel 9 0
    then (record cpu { ex_count = greg }, w)
    else if rs == regsel 10 0
    then (record cpu { tlbentry = tlbsethi greg cpu.tlbentry }, w)
    else if rs == regsel 11 0
    then (store_compare greg cpu, w)
    else if rs == regsel 12 0
    then setstatus hang greg (cpu, w)
    else if rs == regsel 13 0
    then (setcause greg cpu, w)
    else if read_only rs
    then (cpu, w)
    else (exception ex_ri cn 0 cpu, w)
