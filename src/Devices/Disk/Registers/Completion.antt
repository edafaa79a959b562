-- ===== src/Devices/Disk/Registers/Completion.antt =====
-- Requests that are written to the status register.
use sys.Base.{
  ℕ, ◌-◌, ◌<◌, ◌≡◌, refl, ◌∙◌, Bool, true, false, ◌&&◌, ◌==◌, if◌then◌else◌, Outcome, ok, smoke,
  undefined, out_of_fuel, Returns, Returns->>=, Returns-mono, Returns-if, arith,
}
use mathlib.Core.Path.{subst}
use sys.Base.Ints.{pos}
use sys.Devices.Port.{DevicePort}
use sys.Devices.Disk.{Disk, DiskHost}
use sys.Devices.Disk.File.Laws.{Image, FileLaws}
use sys.Devices.Disk.Geometry.{locate_sector}
use sys.Devices.Disk.Geometry.Places.{locate_sector_lem}
use sys.Devices.Disk.Init.Ready.{IsReady, IsIdle}
use sys.Devices.Disk.Work.{disk_update}
use sys.Devices.Disk.Work.Requests.{Serves, request, Updated, Within-update, working}
use sys.Devices.Disk.Work.Stages.{starts}
use sys.Devices.Disk.Registers.{doom_tick, start_request, disk_setstatus}

-- The value of a call that returns.
value_of : {A : Type 0} (m : Outcome A) (P : A → Type 0) → Returns m P → (a : A) × (m ≡ ok a) × P a
value_of (ok a) P h = (a, refl, h)
value_of smoke P h = absurd h
value_of undefined P h = absurd h
value_of out_of_fuel P h = absurd h

module _ {W : Type 0} (fuel : ℕ) (port : DevicePort W) (host : DiskHost W) (image : Image W)
    (laws : FileLaws image host) where
  -- The request as `disk_update` finds it.
  started :
      (wr : Bool) (dd : Disk)
      → IsIdle dd
      → working wr dd.current_track (dd.arrival_secs, dd.arrival_nsecs) 0 0 dd
        ≡ record dd { iostatus = pos 0; stat = request wr }
  started wr dd (still, rested) = ground (arith, still, rested)

  start_request_lem :
      (wr : Bool) (dd : Disk) (doom : ℕ) (w : W)
      → IsReady dd
      → IsIdle dd
      → dd.sect < dd.totsectors
      → Serves fuel port image w
      → Returns
          (start_request fuel port host (request wr) (pos 0) (dd, (doom, w)))
          (λ (dd', (doom', w')). Updated fuel port host image 3 (dd', w') × (doom' ≡ doom))
  unfolding start_request disk_update locate_sector
  start_request_lem wr dd doom w ready idle valid serves =
      let ((cyl, place), located, (n, there, inside, is)) =
        value_of (locate_sector dd dd.sect) _ (locate_sector_lem dd dd.sect ready.geometry valid) in
      let go = Within-update fuel port host image 3 _ (
        starts fuel port host image laws dd ready.buffered cyl n place there inside ready.turning
          ready.slow located valid wr dd.current_track (dd.arrival_secs, dd.arrival_nsecs) w serves
          ready.arrived ready.early) in
      Returns->>=
        (disk_update fuel port host (record dd { iostatus = pos 0; stat = request wr }, w)) _
        (Updated fuel port host image 3) _
        (subst (λ d. Returns (disk_update fuel port host (d, w)) (Updated fuel port host image 3))
          (started wr dd idle) go)
        (λ (dd', w') h. (h, refl))

  -- On a disk that is ready and idle, with a valid sector in its register, a read or a write that is
  -- written to the status register, unless the doom counter ends the simulator with it, is finished,
  -- at once or after at most three events of the disk, however the machine changes in between. In
  -- the states in which the register is written and the events come, the event queue has room, the
  -- time has less than 2^32 - 5 seconds and at most a whole one of nanoseconds, and the host
  -- interrupts a transfer less often than the fuel has room for.
  pub request_completes :
      (wr : Bool) (dd : Disk) (doom : ℕ) (w : W)
      → IsReady dd
      → IsIdle dd
      → dd.sect < dd.totsectors
      → (wr && (dd.usedoom && (doom == 1))) ≡ false
      → Serves fuel port image w
      → Returns (disk_setstatus fuel port host (request wr) (dd, (doom, w))) (λ (dd', (doom', w')).
        Updated fuel port host image 3 (dd', w')
        × (doom' ≡ (if wr && dd.usedoom then doom - 1 else doom)))
  unfolding disk_setstatus doom_tick
  request_completes false dd doom w ready idle valid spared serves =
      start_request_lem false dd doom w ready idle valid serves
  request_completes true dd doom w ready idle valid spared serves =
      Returns->>= (if dd.usedoom then doom_tick fuel port host (doom, w) else ok (doom, w)) _
        (λ s. (s.0 ≡ (if dd.usedoom then doom - 1 else doom)) × (w ≡ s.1)) _
        (counted dd.usedoom spared)
        (λ (doom', w') (is, same).
          Returns-mono (start_request fuel port host (request true) (pos 0) (dd, (doom', w'))) _ _
            (start_request_lem true dd doom' w' ready idle valid
              (subst (Serves fuel port image) same serves))
            (λ s h. (h.0, h.1 ∙ is)))
    where
      counted :
          (u : Bool)
          → (u && (doom == 1)) ≡ false
          → Returns
              (if u then doom_tick fuel port host (doom, w) else ok (doom, w))
              (λ s. (s.0 ≡ (if u then doom - 1 else doom)) × (w ≡ s.1))
      counted false h = (refl, refl)
      counted true h =
          Returns-if (doom == 0) _ _ (λ s. (s.0 ≡ doom - 1) × (w ≡ s.1)) (λ t. (ground arith, refl))
            (λ f.
              Returns-if (doom - 1 == 0) _ _ (λ s. (s.0 ≡ doom - 1) × (w ≡ s.1))
                (λ t. absurd (ground (arith, h, f, t))) (λ f'. (refl, refl)))
