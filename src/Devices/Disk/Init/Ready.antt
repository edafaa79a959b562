-- ===== src/Devices/Disk/Init/Ready.antt =====
-- The disk that `disk_init` sets up.
use sys.Base.{
  ℕ, ◌+◌, ◌/◌, ◌^◌, ◌≤◌, ◌<◌, ◌≡◌, refl, ◌∙◌, ap, true, false, List, [], ◌∷◌, Option, none, some,
  length, length-replicate, ltb, if◌then◌else◌, Outcome, ok, smoke, undefined, out_of_fuel, either,
  arith,
}
use sys.Base.Ints.{word32_lt}
use native.Mathlib.Nat.{div-le_self, le-div_iff_mul-le}
use sys.Devices.Disk.{Disk, DiskHost, sector_size}
use sys.Devices.Disk.Geometry.{compute_sectors}
use sys.Devices.Disk.Geometry.Places.{IsGeometry, GeometryLaws, SetUp, compute_sectors_lem}
use sys.Devices.Disk.Timing.{second}
use sys.Devices.Disk.Init.{
  Argument, Options, default_options, set_option, set_options, are_usable, image_sectors, is_whole,
  new_disk, disk_init,
}

-- A disk that can serve requests.
pub record IsReady (dd : Disk) : Type 0 where
  pub geometry : IsGeometry dd
  pub turning : 0 < dd.nsecs_per_rev
  pub slow : dd.nsecs_per_rev ≤ second
  pub buffered : length dd.buf ≡ sector_size
  pub arrived : dd.arrival_nsecs ≤ second
  pub early : dd.arrival_secs + 5 < 2 ^ 32

-- A disk that waits for no event and has nothing to do.
abbrev pub IsIdle : Disk → Type 0
IsIdle dd = (dd.timedop ≡ false) × (dd.worktries ≡ 0)

-- The turns of a disk are from a nanosecond to a second long.
turn_bounds :
    (rpm : ℕ) → 60 ≤ rpm → rpm < 2 ^ 32 → (0 < second / (rpm / 60)) × (second / (rpm / 60) ≤ second)
turn_bounds rpm lo hi = (
  ((le-div_iff_mul-le {k = rpm / 60} {x = 1} (omega arith)).1 (omega arith)),
  div-le_self second (rpm / 60),
)

abbrev RpmFits : Option Options → Type 0
RpmFits none = Unit
RpmFits (some o) = o.rpm < 2 ^ 32

set_option-RpmFits : (a : Argument) (o : Options) → o.rpm < 2 ^ 32 → RpmFits (set_option a o)
unfolding set_option
set_option-RpmFits (Argument.rpm n) o h = word32_lt n
set_option-RpmFits (Argument.sectors n) o h = h
set_option-RpmFits (Argument.size n) o h = either RpmFits (is_whole n) h tt
set_option-RpmFits Argument.file o h = h
set_option-RpmFits Argument.paranoid o h = h
set_option-RpmFits Argument.doom o h = h
set_option-RpmFits Argument.nodoom o h = h
set_option-RpmFits Argument.invalid o h = tt

set_options-RpmFits :
    (args : List Argument) (o : Options) → o.rpm < 2 ^ 32 → RpmFits (set_options args o)
unfolding set_options
set_options-RpmFits [] o h = h
set_options-RpmFits (a ∷ rest) o h =
    next (set_option a o) (set_option-RpmFits a o h) (λ o'. set_options-RpmFits rest o')
  where
    next :
        (r : Option Options)
        → RpmFits r
        → ((o' : Options) → o'.rpm < 2 ^ 32 → RpmFits (set_options rest o'))
        → RpmFits (elim r [ none ↦ none | some o' ↦ set_options rest o' ])
    next none h ih = tt
    next (some o') h ih = ih o' h

-- A disk of at most 4 GB.
abbrev SizeFits : Option ℕ → Type 0
SizeFits none = Unit
SizeFits (some tot) = tot ≤ 2 ^ 23

image_sectors-SizeFits : (st_size : ℕ) → SizeFits (image_sectors st_size)
unfolding image_sectors
image_sectors-SizeFits st_size = either SizeFits (ltb st_size sector_size) tt (ground arith)

-- What `disk_init` gives where it gives a disk.
abbrev pub InitReady : Outcome (Option Disk) → Type 0
InitReady (ok (some dd)) = IsReady dd × IsIdle dd
InitReady _ = Unit

-- A disk that `disk_init` sets up, at a time with less than 2^32 - 5 seconds and at most a whole one
-- of nanoseconds, is ready and idle: its geometry has a place for each of its sectors, and a turn
-- takes between a nanosecond and a second. The disk has less than twice its sectors physically, and
-- no track more than one in 200 of those.
pub disk_init_lem :
    {W : Type 0} (host : DiskHost W)
    → GeometryLaws host
    → (slot : ℕ) (args : List Argument) (st_size : ℕ) (now : ℕ × ℕ) → now.0 + 5 < 2 ^ 32
    → now.1 ≤ second
    → InitReady (disk_init host slot args st_size now)
unfolding disk_init are_usable new_disk
disk_init_lem host areas slot args st_size now early small =
    configured (set_options args default_options)
      (set_options-RpmFits args default_options (omega arith))
  where
    computed :
        (o : Options) (tot : ℕ)
        → o.rpm < 2 ^ 32
        → are_usable o ≡ true
        → (r : Outcome (Option Disk)) → SetUp host areas (new_disk slot o tot now) r
        → InitReady r
    computed o tot fits usable (ok (some dd)) (valid, is) =
        let turns = turn_bounds o.rpm (ground (arith, usable)) fits in
        (
          record {
            geometry = valid;
            turning = omega (arith, turns.0, ap (λ d. d.nsecs_per_rev) is);
            slow = omega (arith, turns.1, ap (λ d. d.nsecs_per_rev) is);
            buffered = ap (λ d. length d.buf) is ∙ length-replicate {A = ℕ} sector_size 0;
            arrived = omega (arith, small, ap (λ d. d.arrival_nsecs) is);
            early = omega (arith, early, ap (λ d. d.arrival_secs) is);
          },
          (ap (λ d. d.timedop) is, ap (λ d. d.worktries) is),
        )
    computed o tot fits usable (ok none) h = tt
    computed o tot fits usable smoke h = tt
    computed o tot fits usable undefined h = tt
    computed o tot fits usable out_of_fuel h = tt

    imaged :
        (o : Options)
        → o.rpm < 2 ^ 32
        → are_usable o ≡ true
        → (r : Option ℕ) → SizeFits r
        → InitReady (elim r [
          | none ↦ ok none
          | some tot ↦
              if ltb tot 128 then ok none else compute_sectors host (new_disk slot o tot now)
        ])
    imaged o fits usable none sized = tt
    imaged o fits usable (some tot) sized = either InitReady (ltb tot 128) tt (
        computed o tot fits usable (compute_sectors host (new_disk slot o tot now))
          (compute_sectors_lem host areas (new_disk slot o tot now) sized))

    configured :
        (r : Option Options)
        → RpmFits r
        → InitReady (elim r [
          | none ↦ ok none
          | some o ↦
              if are_usable o
              then elim (image_sectors st_size) [
                | none ↦ ok none
                | some tot ↦
                    if ltb tot 128 then ok none else compute_sectors host (new_disk slot o tot now)
              ]
              else ok none
        ])
    configured none h = tt
    configured (some o) h =
        elim (are_usable o)
            as (λ b.
              are_usable o ≡ b
              → InitReady (
                  if b
                  then elim (image_sectors st_size) [
                    | none ↦ ok none
                    | some tot ↦
                        if ltb tot 128
                        then ok none
                        else compute_sectors host (new_disk slot o tot now)
                  ]
                  else ok none)) [
                    | true ↦ λ usable.
                        imaged o h usable (image_sectors st_size) (image_sectors-SizeFits st_size)
                    | false ↦ λ f. tt
                  ]
          refl
