-- ===== src/Devices/Disk/Work/Stages.antt =====
-- The rounds of a request, from its end backwards.
use sys.Base.{
  ℕ, suc, ◌+◌, ◌^◌, ◌≤◌, ◌<◌, ◌≡◌, refl, Bool, true, false, inr, some, get_elem?, length, ltb, leb,
  ◌==◌, Outcome, ok, Returns, Returns->>=, Returns-mono, Returns-if, arith,
}
use sys.Devices.Port.{Event, DevicePort}
use sys.Devices.Disk.{Disk, DiskHost, sector_size}
use sys.Devices.Disk.File.Laws.{Image, FileLaws}
use sys.Devices.Disk.Geometry.{locate_from, locate_sector}
use sys.Devices.Disk.Timing.{second, disk_seektime, disk_readrotdelay, disk_writerotdelay}
use sys.Devices.Disk.Timing.Rotation.{disk_writerotdelay_lem, disk_readrotdelay-Returns}
use sys.Devices.Disk.Work.{
  disk_wait, disk_seek, read_copy, on_track, disk_work, disk_update, disk_seekdone, disk_waitdone,
  distance,
}
use mathlib.Core.Path.{subst}
use sys.Devices.Disk.Work.Requests as R
use sys.Devices.Disk.Work.Requests.{Serves, request, handle}

module _ {W : Type 0} (fuel : ℕ) (port : DevicePort W) (host : DiskHost W) (image : Image W)
    (laws : FileLaws image host) (dd : Disk) (size : length dd.buf ≡ sector_size) where
  abbrev Within : ℕ → Outcome (Disk × W) → Type 0
  Within = R.Within fuel port host image

  abbrev Works : ℕ → Disk × W → Type 0
  Works = R.Works fuel port host image

  abbrev Updated : ℕ → Disk × W → Type 0
  Updated = R.Updated fuel port host image

  -- With the sector at `place` on the track `cyl`, of `n` sectors.
  module _ (cyl n place : ℕ) (there : get_elem? dd.sectors cyl ≡ some n) (inside : place < n)
      (turning : 0 < dd.nsecs_per_rev) (slow : dd.nsecs_per_rev ≤ second)
      (located : locate_from dd.sectors (length dd.sectors) 0 dd.sect ≡ ok (cyl, place))
      (valid : dd.sect < dd.totsectors) where
    -- The wait for an event, from whose handler on there is one event less to go.
    waits :
        (nsecs status m : ℕ) (d : Disk) (w : W)
        → Serves fuel port image w
        → ((w' : W)
            → Serves fuel port image w'
            → Returns
                (disk_waitdone fuel port host status (record d { timedop = true }, w'))
                (Updated m))
        → Within (suc m) (disk_wait fuel port host nsecs status (d, w))
    unfolding disk_wait handle
    waits nsecs status m d w serves next =
        let (w1, e) = serves.schedules nsecs status (Event.disk_waitdone d.slot) in
        rw e (inr (Event.disk_waitdone d.slot, nsecs, status, w, e, refl, next))

    -- A further round of `disk_work`, with the head on the track.
    pub works_on :
        (wr : Bool) (arrival : ℕ × ℕ) (ios tries m : ℕ) (w : W)
        → tries < 10
        → Within m
            (on_track fuel port host cyl place (R.working wr cyl arrival ios (tries + 1) dd, w))
        → Within m (disk_work fuel port host (R.working wr cyl arrival ios tries dd, w))
    unfolding disk_work locate_sector
    works_on wr arrival ios tries m w few next =
        let inb : leb dd.totsectors dd.sect ≡ false = ground arith in
        let tried : ltb 10 (tries + 1) ≡ false = ground arith in
        let same : (cyl == cyl) ≡ true = ground arith in
        elim wr
            as (λ b.
              Within m
                (on_track fuel port host cyl place (R.working b cyl arrival ios (tries + 1) dd, w))
              → Within m (disk_work fuel port host (R.working b cyl arrival ios tries dd, w))) [
                | true ↦ λ h. rw (inb, tried, located, same) h
                | false ↦ λ h. rw (inb, tried, located, same) h
              ]
          next

    -- A read, from its copy backwards to its beginning on the track.
    read_copied :
        (arrival : ℕ × ℕ) (tries : ℕ) (w : W)
        → Serves fuel port image w
        → tries < 10
        → Within 1 (read_copy fuel port host (R.working false cyl arrival 2 tries dd, w))
    unfolding read_copy on_track disk_waitdone disk_update
    read_copied arrival tries w serves few =
        waits 500 3 0 (R.working false cyl arrival 2 tries dd) w serves (λ w' fit.
          R.Within-update fuel port host image 0 _ (
            works_on false arrival 3 tries 0 w' few (
              R.disk_io_lem fuel port host image laws dd size false cyl arrival 3 (tries + 1) 0 w'
                fit)))

    read_turned :
        (arrival : ℕ × ℕ) (tries : ℕ) (w : W)
        → Serves fuel port image w
        → tries < 9
        → arrival.1 ≤ second
        → arrival.0 + 5 < 2 ^ 32
        → Within 2 (on_track fuel port host cyl place (R.working false cyl arrival 0 tries dd, w))
    unfolding on_track disk_waitdone disk_update
    read_turned arrival tries w serves few le early =
        let d = R.working false cyl arrival 0 tries dd in
        Returns->>= (disk_readrotdelay d cyl place (port.clock_time w)) _ (λ delay. Unit) (Works 2)
          (disk_readrotdelay-Returns d cyl n place there inside turning slow (port.clock_time w) le
            early)
          (λ delay h.
            Returns-if (ltb 0 delay) _ _ (Works 2)
              (λ t. waits delay 2 1 d w serves (λ w' fit. R.Within-update fuel port host image 1 _ (
                works_on false arrival 2 tries 1 w' (omega arith)
                  (read_copied arrival (tries + 1) w' fit (omega arith)))))
              (λ f.
                Returns-mono (read_copy fuel port host (R.working false cyl arrival 2 tries dd, w))
                  (Works 1) (Works 2) (read_copied arrival tries w serves (omega arith))
                  (λ (dd', w'). R.Works-more fuel port host image 1 dd' w')))

    -- A write, likewise.
    write_turned :
        (arrival : ℕ × ℕ) (tries : ℕ) (w : W)
        → Serves fuel port image w
        → tries < 10
        → Within 1 (on_track fuel port host cyl place (R.working true cyl arrival 1 tries dd, w))
    unfolding on_track read_copy disk_waitdone disk_update
    write_turned arrival tries w serves few =
        let d = R.working true cyl arrival 1 tries dd in
        Returns->>= (disk_writerotdelay d cyl place (port.clock_time w)) _ (λ delay. Unit) (Works 1)
          (Returns-mono (disk_writerotdelay d cyl place (port.clock_time w)) _ _
            (disk_writerotdelay_lem d cyl n place there inside turning slow (port.clock_time w).0
              (port.clock_time w).1 serves.nsecs_of)
            (λ delay h. tt))
          (λ delay h.
            Returns-if (ltb 0 delay) _ _ (Works 1)
              (λ t. waits delay 2 0 d w serves (λ w' fit. R.Within-update fuel port host image 0 _ (
                works_on true arrival 2 tries 0 w' few (
                  R.disk_io_lem fuel port host image laws dd size true cyl arrival 2 (tries + 1) 0
                    w' fit))))
              (λ f.
                R.disk_io_lem fuel port host image laws dd size true cyl arrival 2 tries 1 w
                  serves))

    write_copied :
        (arrival : ℕ × ℕ) (tries : ℕ) (w : W)
        → Serves fuel port image w
        → tries < 9
        → Within 2 (on_track fuel port host cyl place (R.working true cyl arrival 0 tries dd, w))
    unfolding on_track disk_waitdone disk_update
    write_copied arrival tries w serves few =
        waits 500 1 1 (R.working true cyl arrival 0 tries dd) w serves (λ w' fit.
          R.Within-update fuel port host image 1 _ (
            works_on true arrival 1 tries 1 w' (omega arith)
              (write_turned arrival (tries + 1) w' fit (omega arith))))

    on_track_lem :
        (wr : Bool) (arrival : ℕ × ℕ) (tries : ℕ) (w : W)
        → Serves fuel port image w
        → tries < 9
        → arrival.1 ≤ second
        → arrival.0 + 5 < 2 ^ 32
        → Within 2 (on_track fuel port host cyl place (R.working wr cyl arrival 0 tries dd, w))
    on_track_lem true arrival tries w serves few le early = write_copied arrival tries w serves few
    on_track_lem false arrival tries w serves few le early =
        read_turned arrival tries w serves few le early

    -- With the head on another track.
    seeks :
        (wr : Bool) (track : ℕ) (arrival : ℕ × ℕ) (w : W)
        → Serves fuel port image w
        → Within 3 (disk_seek fuel port host cyl (R.working wr track arrival 0 1 dd, w))
    unfolding disk_seek handle disk_seekdone disk_update
    seeks wr track arrival w serves =
        let nsecs = disk_seektime host (distance cyl track) in
        let (w1, e) = serves.schedules nsecs cyl (Event.disk_seekdone dd.slot) in
        rw e (
          inr (
            Event.disk_seekdone dd.slot,
            nsecs,
            cyl,
            w,
            e,
            refl,
            λ w' fit. R.Within-update fuel port host image 2 _ (
                works_on wr (port.clock_time w') 0 1 2 w' (omega arith) (
                  on_track_lem wr (port.clock_time w') 2 w' fit (omega arith) fit.nsecs_of
                    fit.secs_of)),
          ))

    pub starts :
        (wr : Bool) (track : ℕ) (arrival : ℕ × ℕ) (w : W)
        → Serves fuel port image w
        → arrival.1 ≤ second
        → arrival.0 + 5 < 2 ^ 32
        → Within 3 (disk_work fuel port host (R.working wr track arrival 0 0 dd, w))
    unfolding disk_work locate_sector
    starts wr track arrival w serves le early =
        let inb : leb dd.totsectors dd.sect ≡ false = ground arith in
        let d = λ (b : Bool). R.working b track arrival 0 1 dd in
        let there = λ (b : Bool).
          Returns-if (track == cyl) (on_track fuel port host cyl place (d b, w))
            (disk_seek fuel port host cyl (d b, w)) (Works 3)
            (λ t.
              let same : cyl ≡ track = ground arith in
              subst
                (λ x.
                  Within 3 (on_track fuel port host cyl place (R.working b x arrival 0 1 dd, w)))
                same
                (Returns-mono
                  (on_track fuel port host cyl place (R.working b cyl arrival 0 1 dd, w)) _ _
                  (on_track_lem b arrival 1 w serves (omega arith) le early)
                  (λ (dd', w'). R.Works-more fuel port host image 2 dd' w')))
            (λ f. seeks b track arrival w serves) in
        elim wr
          as (λ b. Within 3 (disk_work fuel port host (R.working b track arrival 0 0 dd, w))) [
            | true ↦ rw (inb, located) (there true)
            | false ↦ rw (inb, located) (there false)
          ]
