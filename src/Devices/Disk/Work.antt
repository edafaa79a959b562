-- ===== src/Devices/Disk/Work.antt =====
-- The state machine of a request: `disk_work`, `disk_update` and the handlers of the two events.
pub mod Line
pub mod Requests
pub mod Stages
use sys.Base.{
  ℕ, ◌+◌, ◌-◌, Bool, true, false, not, ◌&&◌, ltb, leb, ◌==◌, if◌then◌else◌, Outcome, ok, ◌>>=◌,
}
use sys.Base.Ints.{pos, negsuc, ltb_ℤ}
use sys.Devices.Port.{Event, DevicePort}
use sys.Devices.Disk.{
  Disk, DiskHost, in_progress, is_write, is_complete, finish, complete_bits, invsect_bits,
  mediaerr_bits,
}
use sys.Devices.Disk.File.{disk_readsector, disk_writesector}
use sys.Devices.Disk.Geometry.{locate_sector}
use sys.Devices.Disk.Timing.{disk_readrotdelay, disk_writerotdelay, disk_seektime}

-- MAX_WORKTRIES, CACHE_READ_TIME and CACHE_WRITE_TIME.
abbrev pub max_worktries : ℕ
max_worktries = 10

abbrev pub cache_nsecs : ℕ
cache_nsecs = 500

-- The end of `disk_work`: MEDIAERR or COMPLETE.
unfoldable pub finish_io : Bool → Disk → Disk
finish_io err dd = record dd {
  stat = finish dd.stat (if err then mediaerr_bits else complete_bits);
  worktries = 0;
}

-- INVSECT.
unfoldable pub invalid_sector : Disk → Disk
invalid_sector dd = record dd { stat = finish dd.stat invsect_bits; worktries = 0 }

unfoldable pub distance : ℕ → ℕ → ℕ
distance cyl track = if ltb cyl track then track - cyl else cyl - track

-- `fuel` is for the loops on the image file.
module _ {W : Type 0} (fuel : ℕ) (port : DevicePort W) (host : DiskHost W) where
  open port use {raise_irq, lower_irq, schedule_event, clock_time, hang}

  -- From the label `forceio`.
  unfoldable pub disk_io : Disk × W → Outcome (Disk × W)
  unfolding disk_readsector disk_writesector finish_io
  disk_io (dd, w) =
      (if is_write dd.stat
        then disk_writesector host fuel (dd, w)
        else disk_readsector host fuel (dd, w))
      >>= λ (err, (dd', w')). ok (finish_io err dd', w')

  -- The event that ends a wait, with the status that it sets.
  unfoldable pub disk_wait : ℕ → ℕ → Disk × W → Outcome (Disk × W)
  disk_wait nsecs status (dd, w) =
      schedule_event nsecs status (Event.disk_waitdone dd.slot) w >>= λ w'.
      ok (record dd { timedop = true }, w')

  unfoldable pub disk_seek : ℕ → Disk × W → Outcome (Disk × W)
  unfolding disk_seektime distance
  disk_seek cyl (dd, w) =
      schedule_event (disk_seektime host (distance cyl dd.current_track)) cyl
        (Event.disk_seekdone dd.slot) w
      >>= λ w'. ok (record dd { timedop = true }, w')

  -- `disk_work` once the sector has passed the head: the copy from the buffer, for a read.
  unfoldable pub read_copy : Disk × W → Outcome (Disk × W)
  unfolding disk_wait disk_io
  read_copy (dd, w) =
      if not (is_write dd.stat) && ltb_ℤ dd.iostatus (pos 3)
      then disk_wait cache_nsecs 3 (dd, w)
      else disk_io (dd, w)

  -- `disk_work` on the right track: the copy into the buffer, for a write, and the rotation.
  unfoldable pub on_track : ℕ → ℕ → Disk × W → Outcome (Disk × W)
  unfolding disk_wait read_copy disk_readrotdelay disk_writerotdelay
  on_track cyl rotoffset (dd, w) =
      if is_write dd.stat && ltb_ℤ dd.iostatus (pos 1)
      then disk_wait cache_nsecs 1 (dd, w)
      else if ltb_ℤ dd.iostatus (pos 2)
      then ((if is_write dd.stat
            then disk_writerotdelay dd cyl rotoffset (clock_time w)
            else disk_readrotdelay dd cyl rotoffset (clock_time w))
          >>= λ rotdelay.
              (if ltb 0 rotdelay
                then disk_wait rotdelay 2 (dd, w)
                else read_copy (record dd { iostatus = pos 2 }, w)))
      else read_copy (dd, w)

  -- The reset behind the message of a geometry modeling fault.
  unfoldable pub reset_timing : Disk × W → Disk
  reset_timing (dd, w) = record dd {
    current_track = 0;
    arrival_secs = (clock_time w).0;
    arrival_nsecs = (clock_time w).1;
    iostatus = negsuc 0;
    timedop = false;
  }

  unfoldable pub disk_work : Disk × W → Outcome (Disk × W)
  unfolding invalid_sector reset_timing disk_io locate_sector disk_seek on_track
  disk_work (dd, w) =
      if dd.timedop
      then ok (dd, w)
      else if not (in_progress dd.stat)
      then ok (dd, w)
      else if leb dd.totsectors dd.sect
      then ok (invalid_sector dd, w)
      else let tried = record dd { worktries = dd.worktries + 1 } in
        if ltb max_worktries tried.worktries
        then disk_io (reset_timing (tried, w), w)
        else (locate_sector tried tried.sect >>= λ (cyl, rotoffset).
            (if tried.current_track == cyl
              then on_track cyl rotoffset (tried, w)
              else disk_seek cyl (tried, w)))

  -- The interrupt at the end of `disk_update`.
  unfoldable pub disk_irq : Disk × W → W
  disk_irq (dd, w) = if is_complete dd.stat then raise_irq dd.slot w else lower_irq dd.slot w

  unfoldable pub disk_update : Disk × W → Outcome (Disk × W)
  unfolding disk_work disk_irq
  disk_update s = disk_work s >>= λ (dd, w). ok (dd, disk_irq (dd, w))

  unfoldable pub disk_seekdone : ℕ → Disk × W → Outcome (Disk × W)
  unfolding disk_update
  disk_seekdone cyl (dd, w) = disk_update (
    record dd {
      current_track = cyl;
      arrival_secs = (clock_time w).0;
      arrival_nsecs = (clock_time w).1;
      timedop = false;
    },
    w,
  )

  unfoldable pub disk_waitdone : ℕ → Disk × W → Outcome (Disk × W)
  unfolding disk_update
  disk_waitdone status (dd, w) =
      disk_update (record dd { iostatus = pos status; timedop = false }, w)
