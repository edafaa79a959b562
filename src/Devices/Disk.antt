-- ===== src/Devices/Disk.antt =====
-- The disk, sys161/bus/dev_disk.c: its state, and what it calls besides the bus and the clock. The
-- messages and the statistics are left out.
pub mod File
pub mod Geometry
pub mod Timing
pub mod Work
pub mod Registers
pub mod Init
use sys.Base.{ℕ, ◌^◌, Bool, List, bit_and, bit_or, Outcome}
use sys.Base.Bits.{nonzero, bit_not}
use sys.Base.Ints.{ℤ}

-- SECTSIZE, which is also HEADERSIZE.
abbrev pub sector_size : ℕ
sector_size = 512

abbrev pub num_tracks : ℕ
num_tracks = 320

-- `struct disk_data`, with the descriptor `dd_fd` in the rest of the machine. `dd_tracks` is the
-- length of `sectors`.
pub record Disk : Type 0 where
  pub slot : ℕ
  pub is_paranoid : Bool
  pub sectors : List ℕ
  pub totsectors : ℕ
  pub rpm : ℕ
  pub nsecs_per_rev : ℕ
  pub usedoom : Bool
  pub current_track : ℕ
  pub arrival_secs : ℕ
  pub arrival_nsecs : ℕ
  pub iostatus : ℤ
  pub timedop : Bool
  pub worktries : ℕ
  pub stat : ℕ
  pub sect : ℕ
  pub buf : List ℕ

-- What `read` of the host gives: EINTR or EAGAIN, another error, or bytes, none at the end of file.
pub data ReadResult : Type 0 where
  read_again read_failed : ReadResult
  read_bytes : List ℕ → ReadResult

-- What `write` of the host gives: EINTR or EAGAIN, another error, or how many bytes it took.
pub data WriteResult : Type 0 where
  write_again write_failed : WriteResult
  wrote : ℕ → WriteResult

-- The image file, through the calls of the host, which say whether they succeed; `reqdie` of
-- console.c, which ends the simulator; and the floating-point computations: `long_seek n` is
-- `1000000 * (10 + 3*sqrt(n))`, `physical n` is `n * SECTOR_FUDGE`, and `sectors_on n i` is the
-- number of sectors on track `i` of `n` in all, each of them without its fraction.
pub record DiskHost (W : Type 0) : Type 0 where
  pub lseek : ℕ → W → Bool × W
  pub read : ℕ → W → ReadResult × W
  pub write : List ℕ → W → WriteResult × W
  pub fsync : W → Bool × W
  pub reqdie : W → Outcome W
  pub long_seek : ℕ → ℕ
  pub physical : ℕ → ℕ
  pub sectors_on : ℕ → ℕ → ℕ

-- The bits of the status register, and what may be written to it.
abbrev pub in_progress : ℕ → Bool
in_progress stat = nonzero (bit_and stat 1)

abbrev pub is_write : ℕ → Bool
is_write stat = nonzero (bit_and stat 2)

abbrev pub is_complete : ℕ → Bool
is_complete stat = nonzero (bit_and stat 4)

abbrev pub stat_idle : ℕ
stat_idle = 0

abbrev pub stat_reading : ℕ
stat_reading = 1

abbrev pub stat_writing : ℕ
stat_writing = 3

-- `FINISH(r, bits)`, with the bits of COMPLETE, INVSECT and MEDIAERR.
abbrev pub finish : ℕ → ℕ → ℕ
finish stat bits = bit_or (bit_and stat (bit_not 1)) bits

abbrev pub complete_bits : ℕ
complete_bits = 4

abbrev pub invsect_bits : ℕ
invsect_bits = 12

abbrev pub mediaerr_bits : ℕ
mediaerr_bits = 20
