-- ===== src/Devices/Disk/Timing.antt =====
-- How long the disk takes: `disk_seektime`, `disk_readrotdelay`, `disk_writerotdelay`.
pub mod Rotation
use sys.Base.{
  ℕ, zero, suc, ◌+◌, ◌-◌, ◌*◌, ◌/◌, ◌%◌, Bool, true, false, ◌&&◌, ◌||◌, Option, none, some,
  get_elem?, u32, sub32, ltb, leb, ◌==◌, if◌then◌else◌, Outcome, ok, undefined, out_of_fuel, ◌>>=◌,
}
use sys.Devices.Disk.{Disk, DiskHost}

abbrev pub second : ℕ
second = 1_000_000_000

-- `while (targnsecs < limit) targnsecs += rev`, on fuel.
unfoldable pub next_turn : ℕ → ℕ → ℕ → ℕ → Outcome ℕ
next_turn zero rev limit nsecs = out_of_fuel
next_turn (suc fuel) rev limit nsecs =
    let rest = next_turn fuel rev limit (u32 (nsecs + rev)) in
    if ltb nsecs limit then rest else ok nsecs

-- `while (targnsecs >= 1000000000) ...`, on fuel.
unfoldable pub carry_secs : ℕ → ℕ → ℕ → Outcome (ℕ × ℕ)
carry_secs zero secs nsecs = out_of_fuel
carry_secs (suc fuel) secs nsecs =
    let rest = carry_secs fuel (u32 (secs + 1)) (nsecs - second) in
    if leb second nsecs then rest else ok (secs, nsecs)

-- The number of sectors on a track, by which the code divides.
unfoldable pub sectors_of : Disk → ℕ → Outcome ℕ
sectors_of dd cyl = elim (get_elem? dd.sectors cyl) [
  | none ↦ undefined
  | some n ↦ if n == 0 then undefined else ok n
]

-- The end of `disk_readrotdelay`: how long until a time that is not past.
abbrev pub wait_until : ℕ × ℕ → ℕ × ℕ → ℕ
wait_until (nowsecs, nownsecs) (targsecs, targnsecs) =
    if ltb targsecs nowsecs || ((targsecs == nowsecs) && leb targnsecs nownsecs)
    then 0
    else u32 (sub32 targnsecs nownsecs + second * sub32 targsecs nowsecs)

-- `disk_readrotdelay` at the time `now`. Each round of the first loop adds at least a nanosecond.
unfoldable pub disk_readrotdelay : Disk → ℕ → ℕ → ℕ × ℕ → Outcome ℕ
unfolding next_turn carry_secs sectors_of
disk_readrotdelay dd cyl rotoffset now = sectors_of dd cyl >>= λ n.
    (let targsector = (rotoffset + 1) % n in
      next_turn (dd.arrival_nsecs + 1) dd.nsecs_per_rev dd.arrival_nsecs
        (u32 (targsector * (dd.nsecs_per_rev / n)))
      >>= λ targnsecs.
          (carry_secs 5 dd.arrival_secs targnsecs >>= λ targ. ok (wait_until now targ)))

unfoldable pub disk_writerotdelay : Disk → ℕ → ℕ → ℕ × ℕ → Outcome ℕ
unfolding next_turn sectors_of
disk_writerotdelay dd cyl rotoffset (nowsecs, nownsecs) = sectors_of dd cyl >>= λ n.
    (let nsecs_per_sector = dd.nsecs_per_rev / n in
      next_turn (nownsecs + 1) dd.nsecs_per_rev nownsecs (u32 (rotoffset * nsecs_per_sector))
      >>= λ targnsecs. ok (sub32 (u32 (targnsecs + nsecs_per_sector)) nownsecs))

unfoldable pub disk_seektime : {W : Type 0} → DiskHost W → ℕ → ℕ
disk_seektime host ntracks =
    if ltb 3 ntracks then host.long_seek ntracks else 1_000_000 * (5 * ntracks)
