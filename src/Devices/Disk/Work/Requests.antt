-- ===== src/Devices/Disk/Work/Requests.antt =====
-- The course of a request, from the write to the status register to its end.
use sys.Base.{
  ℕ, zero, suc, ◌+◌, ◌^◌, ◌≤◌, ◌<◌, ◌≡◌, refl, Bool, true, false, ◌⊎◌, inl, inr, ◌++◌, drop, length,
  if◌then◌else◌, Outcome, ok, smoke, undefined, out_of_fuel, Returns, Returns->>=, Returns-mono,
  ◌>>=◌, arith,
}
use sys.Base.Ints.{pos}
use sys.Devices.Port.{Event, DevicePort}
use sys.Devices.Disk.{Disk, DiskHost, in_progress, is_complete, sector_size}
use sys.Devices.Disk.File.{doread, dowrite, sector_offset, disk_readsector, disk_writesector}
use sys.Devices.Disk.File.Laws.{Image, FileLaws}
use sys.Devices.Disk.File.Transfers.{AfterDoread, AfterDowrite, doread_lem, dowrite_lem}
use sys.Devices.Disk.Timing.{second}
use sys.Devices.Disk.Work.{finish_io, disk_io, disk_irq, disk_seekdone, disk_waitdone}

-- What a step of a request relies on in the state `w`: the event queue has room, the time is one
-- that `clock_time` gives, and the host interrupts a transfer less often than the fuel has room for.
pub record Serves {W : Type 0} (fuel : ℕ) (port : DevicePort W) (image : Image W) (w : W)
    : Type 0 where
  pub schedules :
      (nsecs code : ℕ) (e : Event) → (w' : W) × (port.schedule_event nsecs code e w ≡ ok w')
  pub nsecs_of : (port.clock_time w).1 ≤ second
  pub secs_of : (port.clock_time w).0 + 5 < 2 ^ 32
  pub patient : image.patience w + sector_size < fuel

-- The status of a request: a write, or a read.
abbrev pub request : Bool → ℕ
request wr = if wr then 3 else 1

-- A disk that executes a request, with the mutable parts of its state.
abbrev pub working : Bool → ℕ → ℕ × ℕ → ℕ → ℕ → Disk → Disk
working wr track arrival ios tries dd = record dd {
  stat = request wr;
  current_track = track;
  arrival_secs = arrival.0;
  arrival_nsecs = arrival.1;
  iostatus = pos ios;
  timedop = false;
  worktries = tries;
}

-- The request is over: the transfer is not in progress any more, and it is complete.
abbrev pub IsFinished : Disk → Type 0
IsFinished dd =
    (in_progress dd.stat ≡ false)
    × (is_complete dd.stat ≡ true)
    × (dd.timedop ≡ false)
    × (dd.worktries ≡ 0)

module _ {W : Type 0} (fuel : ℕ) (port : DevicePort W) (host : DiskHost W) where
  -- The handler of an event of the disk.
  unfoldable pub handle : Event → ℕ → Disk × W → Outcome (Disk × W)
  unfolding disk_seekdone disk_waitdone
  handle (Event.disk_seekdone slot) code s = disk_seekdone fuel port host code s
  handle (Event.disk_waitdone slot) code s = disk_waitdone fuel port host code s
  handle e code s = ok s

module _ {W : Type 0} (fuel : ℕ) (port : DevicePort W) (host : DiskHost W) (image : Image W) where
  -- `disk_work` has finished the request, or has scheduled an event from whose handler on, however
  -- the machine looks when it comes, if only it serves, the same holds with one event less to go.
  abbrev pub Works : ℕ → Disk × W → Type 0
  Works zero (dd, w) = IsFinished dd
  Works (suc m) (dd, w) =
      IsFinished dd
      ⊎ ((e : Event) × (nsecs : ℕ) × (code : ℕ) × (w0 : W) × (port.schedule_event nsecs code e w0
            ≡ ok w)
          × (dd.timedop ≡ true)
          × ((w' : W)
              → Serves fuel port image w'
              → Returns (handle fuel port host e code (dd, w')) (λ (dd', w'').
                (w1 : W) × (w'' ≡ disk_irq fuel port host (dd', w1)) × Works m (dd', w1))))

  finished : (m : ℕ) (dd : Disk) (w : W) → IsFinished dd → Works m (dd, w)
  finished zero dd w h = h
  finished (suc m) dd w h = inl h

  pub Works-more : (m : ℕ) (dd : Disk) (w : W) → Works m (dd, w) → Works (suc m) (dd, w)
  Works-more zero dd w h = inl h
  Works-more (suc m) dd w (inl h) = inl h
  Works-more (suc m) dd w (inr (e, nsecs, code, w0, scheduled, timed, next)) = inr (
    e,
    nsecs,
    code,
    w0,
    scheduled,
    timed,
    λ w' fit.
        Returns-mono (handle fuel port host e code (dd, w')) _ _ (next w' fit)
          (λ (dd', w'') (w1, is, h). (w1, is, Works-more m dd' w1 h)),
  )

  -- What is left of `disk_work` is done with so many events to go.
  abbrev pub Within : ℕ → Outcome (Disk × W) → Type 0
  Within m r = Returns r (Works m)

  abbrev pub Updated : ℕ → Disk × W → Type 0
  Updated m (dd, w) = (w1 : W) × (w ≡ disk_irq fuel port host (dd, w1)) × Works m (dd, w1)

  pub Within-update :
      (m : ℕ) (r : Outcome (Disk × W))
      → Within m r
      → Returns {A = Disk × W}
          (r >>= λ (dd, w). ok (dd, disk_irq fuel port host (dd, w)))
          (Updated m)
  Within-update m (ok (dd, w)) h = (w, refl, h)
  Within-update m smoke h = h
  Within-update m undefined h = h
  Within-update m out_of_fuel h = h

  module _ (laws : FileLaws image host) where
    module _ (dd : Disk) (size : length dd.buf ≡ sector_size) where
      -- The transfer leaves a disk that its end finishes.
      abbrev Transferred : Bool × (Disk × W) → Type 0
      Transferred (err, (dd', w')) = IsFinished (finish_io err dd')

      pub disk_io_lem :
          (wr : Bool) (track : ℕ) (arrival : ℕ × ℕ) (ios tries m : ℕ) (w : W)
          → Serves fuel port image w
          → Within m (disk_io fuel port host (working wr track arrival ios tries dd, w))
      unfolding disk_io disk_readsector disk_writesector finish_io
      disk_io_lem true track arrival ios tries m w serves =
          let d = working true track arrival ios tries dd in
          Returns->>= (disk_writesector host fuel (d, w)) _ Transferred (Works m)
            (Returns->>= (dowrite host fuel (sector_offset dd.sect) dd.is_paranoid dd.buf w) _
              (AfterDowrite host image laws (image.content w) (sector_offset dd.sect) dd.buf)
              Transferred
              (dowrite_lem host image laws fuel (sector_offset dd.sect) dd.is_paranoid dd.buf w
                (omega (arith, size, serves.patient)))
              (λ (err, w') h. elim err as (λ b. Transferred (b, (d, w'))) [
                | true ↦ (refl, refl, refl, refl)
                | false ↦ (refl, refl, refl, refl)
              ]))
            (λ (err, (dd', w')) h. finished m (finish_io err dd') w' h)
      disk_io_lem false track arrival ios tries m w serves =
          let d = working false track arrival ios tries dd in
          Returns->>= (disk_readsector host fuel (d, w)) _ Transferred (Works m)
            (Returns->>= (doread host fuel (sector_offset dd.sect) sector_size w) _
              (AfterDoread host image laws (image.content w) (sector_offset dd.sect) sector_size)
              Transferred
              (doread_lem host image laws fuel (sector_offset dd.sect) sector_size w
                (serves.patient))
              (λ (err, bytes, w') h.
                let d' = record d { buf = bytes ++ drop (length bytes) dd.buf } in
                elim err as (λ b. Transferred (b, (d', w'))) [
                  | true ↦ (refl, refl, refl, refl)
                  | false ↦ (refl, refl, refl, refl)
                ]))
            (λ (err, (dd', w')) h. finished m (finish_io err dd') w' h)
