-- ===== src/Devices/Disk/Registers/Stale.antt =====
-- A request that begins while an event of an earlier one is pending.
use sys.Base.{ℕ, ◌+◌, ◌<◌, ◌≤◌, ◌≡◌, refl, true, false, some, length, get_elem?, ok, Returns}
use sys.Devices.Port.{DevicePort}
use sys.Devices.Disk.{Disk, DiskHost, sector_size}
use sys.Devices.Disk.File.Laws.{Image, FileLaws}
use sys.Devices.Disk.Geometry.{locate_sector}
use sys.Devices.Disk.Timing.{second}
use sys.Devices.Disk.Work.{disk_work, disk_irq, disk_update, disk_waitdone, on_track, read_copy}
use sys.Devices.Disk.Work.Requests.{Serves, Updated, Within-update, disk_io_lem, working}
use sys.Devices.Disk.Work.Stages.{works_on}
use sys.Devices.Disk.Registers.{start_request, disk_setstatus}

module _ {W : Type 0} (fuel : ℕ) (port : DevicePort W) (host : DiskHost W) (image : Image W)
    (laws : FileLaws image host) where
  -- A disk on the track of a valid sector, in the course of a read, waits for the last event, and
  -- is told to read again: it keeps waiting, and that event finishes the new read too, without a
  -- rotation of its own. The event comes before the tenth try, a turn takes between a nanosecond and
  -- a second, and in the state in which the event comes, the event queue has room, the time has less
  -- than 2^32 - 5 seconds and at most a whole one of nanoseconds, and the host interrupts a transfer
  -- less often than the fuel has room for.
  pub stale_event :
      (dd : Disk) (arrival : ℕ × ℕ) (tries doom cyl n place : ℕ) (w w' : W)
      → length dd.buf ≡ sector_size
      → get_elem? dd.sectors cyl ≡ some n
      → place < n
      → 0 < dd.nsecs_per_rev
      → dd.nsecs_per_rev ≤ second
      → locate_sector dd dd.sect ≡ ok (cyl, place)
      → dd.sect < dd.totsectors
      → tries < 10
      → Serves fuel port image w'
      → let waiting =
          λ (ios : ℕ). record (working false cyl arrival ios tries dd) { timedop = true } in
        (disk_setstatus fuel port host 1 (waiting 2, (doom, w))
          ≡ ok (waiting 0, (doom, port.lower_irq dd.slot w)))
        × Returns (disk_waitdone fuel port host 3 (waiting 0, w')) (Updated fuel port host image 0)
  unfolding disk_setstatus start_request disk_update disk_work disk_irq disk_waitdone on_track
      read_copy locate_sector
  stale_event dd arrival tries doom cyl n place w w' size there inside turning slow located valid
        few serves =
      (
        refl,
        Within-update fuel port host image 0 _ (
            works_on fuel port host image laws dd size cyl n place there inside turning slow located
              valid false arrival 3 tries 0 w' few
              (disk_io_lem fuel port host image laws dd size false cyl arrival 3 (tries + 1) 0 w'
                serves)),
      )
