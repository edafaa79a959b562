-- ===== src/Devices/Disk/Work/Line.antt =====
-- The interrupt line of the disk.
use sys.Base.{
  ℕ, ◌+◌, ◌<◌, ◌≡◌, refl, ◌∙◌, Bool, true, false, ◌==◌, if◌then◌else◌, Ensures, Ensures->>=, arith,
  either,
}
use sys.Base.{not, ◌&&◌, ltb, leb, Ensures-if}
use sys.Base.Ints.{pos, ltb_ℤ}
use sys.Devices.Disk.{in_progress}
use sys.Devices.Disk.Geometry.{locate_sector}
use sys.Devices.Port.{DevicePort, DeviceLaws}
use sys.Devices.Disk.{Disk, DiskHost, is_complete, is_write}
use sys.Devices.Disk.File.{doread, dowrite, disk_readsector, disk_writesector}
use sys.Devices.Disk.Timing.{disk_readrotdelay, disk_writerotdelay}
use sys.Devices.Disk.Work.{
  finish_io, invalid_sector, disk_io, disk_wait, disk_seek, read_copy, on_track, reset_timing,
  disk_work, cache_nsecs, max_worktries, disk_irq, disk_update,
}
use sys.Base.{Ensures-any}

module _ {W : Type 0} (fuel : ℕ) (port : DevicePort W) (host : DiskHost W) where
  -- No step of `disk_work` changes the slot.
  abbrev SameSlot : ℕ → Disk × W → Type 0
  SameSlot slot s = s.0.slot ≡ slot

  abbrev IoSlot : ℕ → Bool × (Disk × W) → Type 0
  IoSlot slot r = r.1.0.slot ≡ slot

  disk_io-slot : (dd : Disk) (w : W) → Ensures (disk_io fuel port host (dd, w)) (SameSlot dd.slot)
  unfolding disk_io finish_io disk_readsector disk_writesector
  disk_io-slot dd w =
      Ensures->>= _ _ (IoSlot dd.slot) (SameSlot dd.slot)
        (either (λ m. Ensures m (IoSlot dd.slot)) (is_write dd.stat)
          (Ensures-any (dowrite host fuel _ dd.is_paranoid dd.buf w) _ (IoSlot dd.slot) (λ r. refl))
          (Ensures-any (doread host fuel _ _ w) _ (IoSlot dd.slot) (λ r. refl)))
        (λ r e. e)

  disk_wait-slot :
      (nsecs status : ℕ) (dd : Disk) (w : W)
      → Ensures (disk_wait fuel port host nsecs status (dd, w)) (SameSlot dd.slot)
  unfolding disk_wait
  disk_wait-slot nsecs status dd w =
      Ensures-any (port.schedule_event nsecs status _ w) _ (SameSlot dd.slot) (λ w'. refl)

  read_copy-slot :
      (dd : Disk) (w : W) → Ensures (read_copy fuel port host (dd, w)) (SameSlot dd.slot)
  unfolding read_copy
  read_copy-slot dd w =
      Ensures-if (not (is_write dd.stat) && ltb_ℤ dd.iostatus (pos 3)) _ _ (SameSlot dd.slot)
        (disk_wait-slot cache_nsecs 3 dd w) (disk_io-slot dd w)

  -- Once the delay is known.
  rotated-slot :
      (delay : ℕ) (dd : Disk) (w : W)
      → Ensures
          (if ltb 0 delay
            then disk_wait fuel port host delay 2 (dd, w)
            else read_copy fuel port host (record dd { iostatus = pos 2 }, w))
          (SameSlot dd.slot)
  rotated-slot delay dd w =
      Ensures-if (ltb 0 delay) _ _ (SameSlot dd.slot) (disk_wait-slot delay 2 dd w)
        (read_copy-slot (record dd { iostatus = pos 2 }) w)

  on_track-slot :
      (cyl rotoffset : ℕ) (dd : Disk) (w : W)
      → Ensures (on_track fuel port host cyl rotoffset (dd, w)) (SameSlot dd.slot)
  unfolding on_track
  on_track-slot cyl rotoffset dd w =
      Ensures-if (is_write dd.stat && ltb_ℤ dd.iostatus (pos 1)) _ _ (SameSlot dd.slot)
        (disk_wait-slot cache_nsecs 1 dd w)
        (Ensures-if (ltb_ℤ dd.iostatus (pos 2)) _ _ (SameSlot dd.slot)
          (Ensures-any
            (if is_write dd.stat
              then disk_writerotdelay dd cyl rotoffset (port.clock_time w)
              else disk_readrotdelay dd cyl rotoffset (port.clock_time w))
            _ (SameSlot dd.slot) (λ delay. rotated-slot delay dd w))
          (read_copy-slot dd w))

  disk_seek-slot :
      (cyl : ℕ) (dd : Disk) (w : W)
      → Ensures (disk_seek fuel port host cyl (dd, w)) (SameSlot dd.slot)
  unfolding disk_seek
  disk_seek-slot cyl dd w =
      Ensures-any (port.schedule_event _ cyl _ w) _ (SameSlot dd.slot) (λ w'. refl)

  disk_work-slot :
      (dd : Disk) (w : W) → Ensures (disk_work fuel port host (dd, w)) (SameSlot dd.slot)
  unfolding disk_work invalid_sector reset_timing locate_sector
  disk_work-slot dd w =
      let tried = record dd { worktries = dd.worktries + 1 } in
      Ensures-if dd.timedop _ _ (SameSlot dd.slot) refl (
        Ensures-if (not (in_progress dd.stat)) _ _ (SameSlot dd.slot) refl (
          Ensures-if (leb dd.totsectors dd.sect) _ _ (SameSlot dd.slot) refl (
            Ensures-if (ltb max_worktries (dd.worktries + 1)) _ _ (SameSlot dd.slot)
              (disk_io-slot (reset_timing fuel port host (tried, w)) w)
              (Ensures-any (locate_sector dd dd.sect) _ (SameSlot dd.slot) (λ (cyl, rotoffset).
                Ensures-if (dd.current_track == cyl) _ _ (SameSlot dd.slot)
                  (on_track-slot cyl rotoffset tried w) (disk_seek-slot cyl tried w))))))

  module _ (laws : DeviceLaws port) where
    -- Wherever `disk_update` returns, at the end of each event of the disk and of each accepted write
    -- to the status register, the line of the disk's slot is up exactly if the status register says
    -- that the request is complete.
    pub disk_update_lem :
        (dd : Disk) (w : W)
        → dd.slot < 32
        → Ensures
            (disk_update fuel port host (dd, w))
            (λ (dd', w'). port.check_irq dd.slot w' ≡ is_complete dd'.stat)
    unfolding disk_update disk_irq
    disk_update_lem dd w small =
        Ensures->>= (disk_work fuel port host (dd, w)) _ (SameSlot dd.slot) _ (disk_work-slot dd w)
          (λ (dd', w') same. line dd' w' same (is_complete dd'.stat))
      where
        self_test : (n : ℕ) → (n == n) ≡ true
        self_test n = ground arith

        line :
            (dd' : Disk) (w' : W)
            → dd'.slot ≡ dd.slot
            → (b : Bool)
            → port.check_irq dd.slot
                (if b then port.raise_irq dd'.slot w' else port.lower_irq dd'.slot w')
              ≡ b
        line dd' w' same true =
            rw same (laws.check-raise dd.slot dd.slot w' small small ∙ rw (self_test dd.slot) refl)
        line dd' w' same false =
            rw same (laws.check-lower dd.slot dd.slot w' small small ∙ rw (self_test dd.slot) refl)
