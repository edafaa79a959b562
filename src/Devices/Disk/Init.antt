-- ===== src/Devices/Disk/Init.antt =====
-- `disk_init`, with the size of the image from `disk_open`.
pub mod Ready
use sys.Base.{
  ℕ, ◌+◌, ◌-◌, ◌*◌, ◌/◌, ◌%◌, ◌^◌, Bool, true, false, ◌||◌, List, [], ◌∷◌, Option, none, some, ltb,
  ◌==◌, if◌then◌else◌, replicate, u32, not, Outcome, ok, ◌>>=◌,
}
use sys.Base.Ints.{ℤ, pos, negsuc, word32}
use sys.Devices.Disk.{Disk, DiskHost, sector_size, stat_idle}
use sys.Devices.Disk.Geometry.{compute_sectors}

-- An argument, with its number as `atoi` or `getsize` reads it.
pub data Argument : Type 0 where
  rpm sectors size : ℤ → Argument
  file paranoid doom nodoom invalid : Argument

-- The local variables that the loop over the arguments sets; `named` says whether there is a file.
pub record Options : Type 0 where
  pub rpm : ℕ
  pub totsectors : ℕ
  pub named : Bool
  pub is_paranoid : Bool
  pub usedoom : Bool

-- The remainder of a size modulo the sector's is 0.
abbrev pub is_whole : ℤ → Bool
is_whole (pos n) = n % sector_size == 0
is_whole (negsuc n) = (n + 1) % sector_size == 0

-- `totsectors = size / SECTSIZE`, of a size that is a multiple.
abbrev pub whole_sectors : ℤ → ℕ
whole_sectors (pos n) = u32 (n / sector_size)
whole_sectors (negsuc n) = word32 (negsuc ((n + 1) / sector_size - 1))

-- One argument; a `none` where it dies.
unfoldable pub set_option : Argument → Options → Option Options
set_option (Argument.rpm n) o = some (record o { rpm = word32 n })
set_option (Argument.sectors n) o = some (record o { totsectors = word32 n })
set_option (Argument.size n) o =
    if is_whole n then some (record o { totsectors = whole_sectors n }) else none
set_option Argument.file o = some (record o { named = true })
set_option Argument.paranoid o = some (record o { is_paranoid = true })
set_option Argument.doom o = some (record o { usedoom = true })
set_option Argument.nodoom o = some (record o { usedoom = false })
set_option Argument.invalid o = none

unfoldable pub set_options : List Argument → Options → Option Options
unfolding set_option
set_options [] o = some o
set_options (a ∷ rest) o = elim (set_option a o) [ none ↦ none | some o' ↦ set_options rest o' ]

-- The tests behind the loop.
unfoldable pub are_usable : Options → Bool
are_usable o = not (ltb o.rpm 60 || not (o.rpm % 60 == 0) || not o.named)

-- The number of sectors from the size of the image; a `none` where there is no header.
unfoldable pub image_sectors : ℕ → Option ℕ
image_sectors st_size =
    if ltb st_size sector_size
    then none
    else some (
        (if ltb 0xffff_ffff (st_size - sector_size) then 2 ^ 32 else st_size - sector_size)
        / sector_size)

abbrev pub default_options : Options
default_options = record {
  rpm = 3600;
  totsectors = 0;
  named = false;
  is_paranoid = false;
  usedoom = true;
}

-- The disk before its geometry is computed.
unfoldable pub new_disk : ℕ → Options → ℕ → ℕ × ℕ → Disk
new_disk slot o tot (secs, nsecs) = record {
  slot = slot;
  is_paranoid = o.is_paranoid;
  sectors = [];
  totsectors = tot;
  rpm = o.rpm;
  nsecs_per_rev = 1_000_000_000 / (o.rpm / 60);
  usedoom = o.usedoom;
  current_track = 0;
  arrival_secs = secs;
  arrival_nsecs = nsecs;
  iostatus = negsuc 0;
  timedop = false;
  worktries = 0;
  stat = stat_idle;
  sect = 0;
  buf = replicate sector_size 0;
}

-- `disk_init` at the time `now`, with an image of `st_size` bytes; a `none` where it dies. The new
-- buffer, whose content C leaves open, holds zeros.
unfoldable pub disk_init :
    {W : Type 0} → DiskHost W → ℕ → List Argument → ℕ → ℕ × ℕ → Outcome (Option Disk)
unfolding set_options are_usable image_sectors new_disk compute_sectors
disk_init host slot args st_size now = elim (set_options args default_options) [
  | none ↦ ok none
  | some o ↦
      if are_usable o
      then elim (image_sectors st_size) [
        | none ↦ ok none
        | some tot ↦ if ltb tot 128 then ok none else compute_sectors host (new_disk slot o tot now)
      ]
      else ok none
]
