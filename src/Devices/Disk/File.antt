-- ===== src/Devices/Disk/File.antt =====
-- Reading and writing the image file: `doread`, `dowrite`, `disk_readsector`, `disk_writesector`.
pub mod Laws
pub mod Transfers
pub mod Sectors
use sys.Base.{
  ℕ, zero, suc, ◌+◌, ◌-◌, ◌*◌, Bool, true, false, not, List, [], ◌∷◌, ◌++◌, length, drop, replicate,
  leb, ◌==◌, if◌then◌else◌, Outcome, ok, out_of_fuel, ◌>>=◌,
}
use sys.Devices.Disk.{
  Disk, DiskHost, ReadResult, WriteResult, read_again, read_failed, read_bytes, write_again,
  write_failed, wrote, sector_size,
}

-- The place of a sector in the file.
abbrev pub sector_offset : ℕ → ℕ
sector_offset sect = sect * sector_size + sector_size

module _ {W : Type 0} (host : DiskHost W) where
  open host use {lseek, read, write, fsync}

  -- The loop of `doread`, on fuel: `done` are the bytes in the buffer so far. It gives whether it
  -- failed, and the bytes that it put into the buffer.
  unfoldable pub doread_from : ℕ → ℕ → List ℕ → W → Outcome (Bool × List ℕ × W)
  doread_from zero size done w = out_of_fuel
  doread_from (suc fuel) size done w =
      let rest = size - length done in
      let (result, w') = read rest w in
      let more : Outcome (Bool × List ℕ × W) = elim result [
        | read_again ↦ doread_from fuel size done w'
        | read_failed ↦ ok (true, done, w')
        | read_bytes bytes ↦
            doread_from fuel size (done ++ (if length bytes == 0 then replicate rest 0 else bytes))
              w'
      ] in
      if leb size (length done) then ok (false, done, w) else more

  unfoldable pub doread : ℕ → ℕ → ℕ → W → Outcome (Bool × List ℕ × W)
  unfolding doread_from
  doread fuel offset size w =
      let (found, w') = lseek offset w in
      if found then doread_from fuel size [] w' else ok (true, [], w')

  -- The loop of `dowrite`, on fuel, with the bytes that are left to write; then the `fsync`.
  unfoldable pub dowrite_from : ℕ → Bool → List ℕ → W → Outcome (Bool × W)
  dowrite_from zero paranoid rest w = out_of_fuel
  dowrite_from (suc fuel) paranoid rest w =
      let (result, w') = write rest w in
      let (synced, w'') = fsync w in
      let more : Outcome (Bool × W) = elim result [
        | write_again ↦ dowrite_from fuel paranoid rest w'
        | write_failed ↦ ok (true, w')
        | wrote r ↦
            let next = dowrite_from fuel paranoid (drop r rest) w' in
            if r == 0 then ok (true, w') else next
      ] in
      if length rest == 0 then if paranoid then ok (not synced, w'') else ok (false, w) else more

  unfoldable pub dowrite : ℕ → ℕ → Bool → List ℕ → W → Outcome (Bool × W)
  unfolding dowrite_from
  dowrite fuel offset paranoid bytes w =
      let (found, w') = lseek offset w in
      if found then dowrite_from fuel paranoid bytes w' else ok (true, w')

  unfoldable pub disk_readsector : ℕ → Disk × W → Outcome (Bool × (Disk × W))
  unfolding doread
  disk_readsector fuel (dd, w) =
      doread fuel (sector_offset dd.sect) sector_size w >>= λ (err, bytes, w').
      ok (err, (record dd { buf = bytes ++ drop (length bytes) dd.buf }, w'))

  unfoldable pub disk_writesector : ℕ → Disk × W → Outcome (Bool × (Disk × W))
  unfolding dowrite
  disk_writesector fuel (dd, w) =
      dowrite fuel (sector_offset dd.sect) dd.is_paranoid dd.buf w >>= λ (err, w').
      ok (err, (dd, w'))
