-- ===== src/Devices/Disk/Registers.antt =====
-- The registers and the transfer buffer: `disk_setstatus`, `disk_fetch`, `disk_store`; and the
-- doom counter, which all disks share.
pub mod Buffer
pub mod Completion
pub mod Stale
use sys.Base.{
  ℕ, ◌+◌, ◌-◌, ◌*◌, ◌/◌, ◌%◌, ◌^◌, Bool, true, false, ◌&&◌, List, Option, none, some, get_elem?,
  set, length, ltb, leb, ◌==◌, if◌then◌else◌, Outcome, ok, undefined, ◌>>=◌,
}
use sys.Base.Ints.{ℤ, pos, negsuc}
use sys.Devices.Port.{DevicePort}
use sys.Devices.Disk.{Disk, DiskHost, sector_size, stat_idle, stat_reading, stat_writing}
use sys.Devices.Disk.Work.{disk_update}

-- DISK_BUF_START and DISK_BUF_END.
abbrev pub buf_start : ℕ
buf_start = 32768

abbrev pub in_buf : ℕ → Bool
in_buf offset = leb buf_start offset && ltb offset (buf_start + sector_size)

-- A byte that there is.
abbrev pub present : Option ℕ → Outcome ℕ
present none = undefined
present (some b) = ok b

-- The byte at `i`; reading behind the buffer is undefined.
unfoldable pub byte_at : List ℕ → ℕ → Outcome ℕ
byte_at buf i = present (get_elem? buf i)

-- Four bytes in the order of the cpu, big-endian or little-endian.
unfoldable pub word_of : Bool → Outcome ℕ → Outcome ℕ → Outcome ℕ → Outcome ℕ → Outcome ℕ
word_of big ma mb mc md = ma >>= λ a.
    (mb >>= λ b.
    (mc >>= λ c.
    (md >>= λ d. ok (
      if big
      then a * 2 ^ 24 + b * 2 ^ 16 + c * 2 ^ 8 + d
      else d * 2 ^ 24 + c * 2 ^ 16 + b * 2 ^ 8 + a))))

-- `ctoh32` of the word at `i`.
unfoldable pub fetch_word : Bool → List ℕ → ℕ → Outcome ℕ
unfolding byte_at word_of
fetch_word big buf i =
    word_of big (byte_at buf i) (byte_at buf (i + 1)) (byte_at buf (i + 2)) (byte_at buf (i + 3))

-- Byte `k` of a word, from the lowest.
abbrev pub byte_of : ℕ → ℕ → ℕ
byte_of val k = val / 2 ^ (8 * k) % 256

-- The store of `htoc32(val)` at `i`.
unfoldable pub store_word : Bool → List ℕ → ℕ → ℕ → Outcome (List ℕ)
store_word big buf i val =
    if ltb (i + 3) (length buf)
    then ok (
        set
          (set
            (set (set buf i (byte_of val (if big then 3 else 0))) (i + 1)
              (byte_of val (if big then 2 else 1)))
            (i + 2) (byte_of val (if big then 1 else 2)))
          (i + 3) (byte_of val (if big then 0 else 3)))
    else undefined

-- `disk_fetch`: a `none` for the -1.
unfoldable pub disk_fetch : Bool → ℕ → Disk → Outcome (Option ℕ)
unfolding fetch_word
disk_fetch big offset dd =
    if in_buf offset
    then (fetch_word big dd.buf (offset - buf_start) >>= λ v. ok (some v))
    else ok (
        if offset == 0
        then some dd.totsectors
        else if offset == 12
        then some dd.rpm
        else if offset == 4
        then some dd.stat
        else if offset == 8
        then some dd.sect
        else none)

module _ {W : Type 0} (fuel : ℕ) (port : DevicePort W) (host : DiskHost W) where
  -- `doom_tick`, on the counter: at 0 it is off.
  unfoldable pub doom_tick : ℕ × W → Outcome (ℕ × W)
  doom_tick (doom, w) =
      if doom == 0
      then ok (0, w)
      else if doom - 1 == 0
      then (host.reqdie w >>= λ w'. ok (0, w'))
      else ok (doom - 1, w)

  -- The end of `disk_setstatus`, with the new state of the transfer.
  unfoldable pub start_request : ℕ → ℤ → Disk × (ℕ × W) → Outcome (Disk × (ℕ × W))
  unfolding disk_update
  start_request val iostatus (dd, (doom, w)) =
      disk_update fuel port host (record dd { iostatus = iostatus; stat = val }, w) >>= λ (dd', w').
      ok (dd', (doom, w'))

  unfoldable pub disk_setstatus : ℕ → Disk × (ℕ × W) → Outcome (Disk × (ℕ × W))
  unfolding doom_tick start_request
  disk_setstatus val (dd, (doom, w)) =
      if val == stat_idle
      then start_request val (negsuc 0) (dd, (doom, w))
      else if val == stat_reading
      then start_request val (pos 0) (dd, (doom, w))
      else if val == stat_writing
      then ((if dd.usedoom then doom_tick (doom, w) else ok (doom, w)) >>= λ s.
          start_request val (pos 0) (dd, s))
      else ok (dd, (doom, port.hang w))

  -- `disk_store`: a `none` for the -1.
  unfoldable pub disk_store : Bool → ℕ → ℕ → Disk × (ℕ × W) → Outcome (Option (Disk × (ℕ × W)))
  unfolding store_word disk_setstatus
  disk_store big offset val (dd, s) =
      if in_buf offset
      then (store_word big dd.buf (offset - buf_start) val >>= λ buf.
          ok (some (record dd { buf = buf }, s)))
      else if offset == 4
      then (disk_setstatus val (dd, s) >>= λ s'. ok (some s'))
      else if offset == 8
      then ok (some (record dd { sect = val }, s))
      else ok none
