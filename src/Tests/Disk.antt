-- ===== src/Tests/Disk.antt =====
-- The theorems on the disk, at a disk of 320 tracks with one sector each, and a file in memory of
-- which at most 100 bytes are transferred at once.
use sys.Base.{
  ◌*◌, ◌/◌, ℕ, zero, suc, ◌+◌, ◌-◌, ◌*◌, ◌%◌, ◌≤◌, ◌<◌, ◌≡◌, refl, ap, ◌∙◌, min, Bool, true, false,
  ◌&&◌, List, [], ◌∷◌, some, get_elem?, get_or, length, replicate, leb, ltb, ◌==◌, if◌then◌else◌,
  inr, ok, smoke, Returns, Ensures, arith,
}
use Prim.Native.Nat.{max}
use sys.Base.Ints.{pos, negsuc}
use sys.Base.{length-replicate}
use sys.Devices.Disk.Geometry.{locate_from, locate_sector}
use sys.Devices.Disk.Geometry.Places.{GeometryLaws, IsGeometry, IsPlace, sum, locate_sector_lem}
use sys.Devices.Disk.Timing.{disk_readrotdelay}
use sys.Devices.Disk.Timing.Rotation.{IsTurn, total_nsecs, disk_readrotdelay_lem}
use sys.Devices.Disk.Work.{disk_update, disk_waitdone}
use sys.Devices.Disk.Work.Line.{disk_update_lem}
use sys.Devices.Disk.Work.Requests.{Serves, Updated, request, working}
use sys.Devices.Disk.Registers.{disk_fetch, disk_store, disk_setstatus}
use sys.Devices.Disk.Registers.Buffer.{disk_fetch-disk_store}
use sys.Devices.Disk.Registers.Completion.{request_completes}
use sys.Devices.Disk.Registers.Stale.{stale_event}
use sys.Devices.Disk.Init.{Argument, disk_init}
use sys.Devices.Disk.Init.Ready.{IsReady, InitReady, disk_init_lem}
use sys.Devices.Disk.File.Transfers.{AfterDowrite, dowrite_lem}
use sys.Devices.Disk.File.Sectors.{ReadsBack, stored_in, disk_readsector-disk_writesector}
use sys.Clock.State.{Clock}
use sys.Devices.Port.{Event}
use sys.Clock.Time.{clock_time}
use sys.Bus.State.{Bus}
use sys.Machine.{Cpus, device_port}
use sys.Machine.Disks.{Serves-machine}
use sys.Tests.Machine.{jitter, bus, clock}
use sys.Devices.Port.{DevicePort, DeviceLaws}
use sys.Devices.Disk.{Disk, DiskHost, read_bytes, wrote, is_complete, sector_size}
use sys.Devices.Disk.File.{dowrite, dowrite_from, disk_readsector, disk_writesector}
use sys.Devices.Disk.File.Laws.{Image, FileLaws}

-- The lines, and the file.
pub record DiskMachine : Type 0 where
  pub lines : ℕ → Bool
  pub at : ℕ
  pub size : ℕ
  pub raw : ℕ → ℕ

abbrev file : DiskMachine → ℕ → ℕ
file w i = if ltb i w.size then w.raw i else 0

abbrev tabulate : (ℕ → ℕ) → ℕ → ℕ → List ℕ
tabulate f i zero = []
tabulate f i (suc n) = f i ∷ tabulate f (i + 1) n

length-tabulate : (f : ℕ → ℕ) (i n : ℕ) → length (tabulate f i n) ≡ n
length-tabulate f i zero = refl
length-tabulate f i (suc n) = ap suc (length-tabulate f (i + 1) n)

get_or-tabulate : (f : ℕ → ℕ) (i n j : ℕ) → j < n → get_or (tabulate f i n) j 0 ≡ f (i + j)
get_or-tabulate f i zero j h = elim h [ ]
get_or-tabulate f i (suc n) zero h = ap f (omega arith)
get_or-tabulate f i (suc n) (suc j) h =
    get_or-tabulate f (i + 1) n j (omega (arith, h)) ∙ ap f (omega arith)

abbrev transfer : ℕ → ℕ
transfer n = min n 100

abbrev host : DiskHost DiskMachine
host = record {
  lseek = λ offset w. (true, record w { at = offset });
  read = λ n w.
      let k = min (transfer n) (w.size - w.at) in
      (read_bytes (tabulate (file w) w.at k), record w { at = w.at + k });
  write = λ bytes w.
      let r = transfer (length bytes) in
      (
        wrote r,
        record w {
          at = w.at + r;
          size = max w.size (w.at + r);
          raw = λ i. if leb w.at i && ltb i (w.at + r) then get_or bytes (i - w.at) 0 else file w i;
        },
      );
  fsync = λ w. (true, w);
  reqdie = λ w. smoke;
  long_seek = λ n. 10_000_000 + 1_000_000 * n;
  physical = λ n. n * 106 / 100;
  sectors_on = λ n i. min (n * (643 + 6 * i) / 512_000) (n / 200);
}

abbrev image : Image DiskMachine
image = record { content = file; size = λ w. w.size; position = λ w. w.at; patience = λ w. 0 }

host-FileLaws : FileLaws image host
host-FileLaws = record {
  beyond = λ w i h. ground (arith, h);
  seeks = λ offset w. ((λ i. refl), omega arith, λ e. refl);
  reads = λ n w.
      let k = min (transfer n) (w.size - w.at) in
      let whole = length-tabulate (file w) w.at k in
      (
        (λ i. refl),
        omega (arith, whole),
        omega arith,
        omega (arith, whole),
        (λ i h. get_or-tabulate (file w) w.at k i (omega (arith, whole, h))),
        (λ some_bytes e. omega (arith, whole, e, some_bytes)),
      );
  writes = λ bytes w. (refl, omega arith, omega arith, λ i. ground arith);
  syncs = λ w i. refl;
}

abbrev port : DevicePort DiskMachine
port = record {
  raise_irq = λ i w. record w { lines = λ j. if i == j then true else w.lines j };
  lower_irq = λ i w. record w { lines = λ j. if i == j then false else w.lines j };
  check_irq = λ j w. w.lines j;
  schedule_event = λ nsecs code e w. ok w;
  clock_time = λ w. (5, 0);
  clock_setsecs = λ secs w. w;
  clock_setnsecs = λ nsecs w. w;
  hang = λ w. w;
  console_beep = λ w. w;
  console_putc = λ ch w. w;
  count_rchar = λ w. w;
  count_wchar = λ w. w;
}

same_machine : {w w' : DiskMachine} → ok w ≡ ok w' → w' ≡ w
same_machine e = cc

port-DeviceLaws : DeviceLaws port
port-DeviceLaws = record {
  check-raise = λ i j w hi hj. refl;
  check-lower = λ i j w hi hj. refl;
  check-schedule = λ nsecs code j e w w' h. ap (λ v. v.lines j) (same_machine h);
}

abbrev nines : List ℕ
nines = replicate sector_size 9

-- Sector 7 of the disk is wanted.
abbrev disk : Disk
disk = record {
  slot = 3;
  is_paranoid = false;
  sectors = replicate 320 1;
  totsectors = 300;
  rpm = 3600;
  nsecs_per_rev = 16_666_666;
  usedoom = true;
  current_track = 0;
  arrival_secs = 5;
  arrival_nsecs = 0;
  iostatus = negsuc 0;
  timedop = false;
  worktries = 0;
  stat = 0;
  sect = 7;
  buf = nines;
}

abbrev machine : DiskMachine
machine = record { lines = λ i. false; at = 0; size = 154112; raw = λ i. i % 256 }

nines-size : length nines ≡ sector_size
nines-size = length-replicate {A = ℕ} sector_size 9

used_ones : (k i n : ℕ) → get_elem? (replicate k 1) i ≡ some n → 0 < n
used_ones zero i n e = absurd (cc)
used_ones (suc k) zero n e = ground arith
used_ones (suc k) (suc i) n e = used_ones k i n e

sum-ones : (k : ℕ) → sum (replicate k 1) ≡ k
sum-ones zero = refl
sum-ones (suc k) = omega (arith, sum-ones k)

disk-IsGeometry : IsGeometry disk
disk-IsGeometry = record {
  tracks = length-replicate {A = ℕ} 320 1;
  used = used_ones 320;
  enough = omega (arith, sum-ones 320);
  small = omega (arith, sum-ones 320);
}

disk-IsReady : IsReady disk
disk-IsReady = record {
  geometry = disk-IsGeometry;
  turning = omega arith;
  slow = omega arith;
  buffered = nines-size;
  arrived = omega arith;
  early = omega arith;
}

-- The same with the clock and the bus of the machine; the file stands beside them.
abbrev State : Type 0
State = Bus × (Clock Event × DiskMachine)

abbrev beside : {R : Type 0} → (DiskMachine → R × DiskMachine) → State → R × State
beside f (b, (c, x)) = let (r, x') = f x in (r, (b, (c, x')))

abbrev state_host : DiskHost State
state_host = record {
  lseek = λ offset. beside (host.lseek offset);
  read = λ n. beside (host.read n);
  write = λ bytes. beside (host.write bytes);
  fsync = beside host.fsync;
  reqdie = λ w. smoke;
  long_seek = host.long_seek;
  physical = host.physical;
  sectors_on = host.sectors_on;
}

abbrev state_image : Image State
state_image = record {
  content = λ w. file w.1.1;
  size = λ w. w.1.1.size;
  position = λ w. w.1.1.at;
  patience = λ w. 0;
}

state_host-FileLaws : FileLaws state_image state_host
state_host-FileLaws = record {
  beyond = λ w. host-FileLaws.beyond w.1.1;
  seeks = λ offset w. host-FileLaws.seeks offset w.1.1;
  reads = λ n w. host-FileLaws.reads n w.1.1;
  writes = λ bytes w. host-FileLaws.writes bytes w.1.1;
  syncs = λ w. host-FileLaws.syncs w.1.1;
}

-- Cpus whose lines go nowhere.
abbrev no_cpus : Cpus DiskMachine
no_cpus = record {
  cpu_set_irqs = λ i lb ipi x. x;
  cpu_enable = λ i x. x;
  cpu_disable = λ i x. x;
  cpu_set_entrypoint = λ i a x. x;
  cpu_set_stack = λ i a arg x. x;
  start_stack = λ a. a;
  lines = λ x i. (false, false);
  console_beep = λ x. x;
  console_putc = λ ch x. x;
  count_rchar = λ x. x;
  count_wchar = λ x. x;
}

abbrev state_port : DevicePort State
state_port = device_port jitter no_cpus

abbrev state : State
state = (bus, (clock, machine))

state-Serves : Serves 600 state_port state_image state
unfolding clock_time
state-Serves =
    Serves-machine jitter no_cpus 600 state_image bus clock machine refl (omega arith) (omega arith)
      (omega arith)

request_completes_example :
    Returns
      (disk_setstatus 600 state_port state_host (request true) (disk, (7, state)))
      (λ (dd', (doom', w')).
        Updated 600 state_port state_host state_image 3 (dd', w') × (doom' ≡ 6))
request_completes_example =
    request_completes 600 state_port state_host state_image state_host-FileLaws true disk 7 state
      disk-IsReady (refl, refl) (omega arith) refl state-Serves

locate_sector_lem_example : Returns (locate_sector disk 7) (IsPlace disk.sectors 7)
locate_sector_lem_example = locate_sector_lem disk 7 disk-IsGeometry (omega arith)

dowrite_lem_example :
    Returns
      (dowrite host 600 512 true nines machine)
      (AfterDowrite host image host-FileLaws (file machine) 512 nines)
dowrite_lem_example =
    dowrite_lem host image host-FileLaws 600 512 true nines machine (omega (arith, nines-size))

host-GeometryLaws : GeometryLaws host
host-GeometryLaws = record { physical-le = λ n. omega arith; sectors-le = λ n i lt. ground arith }

-- 10240 sectors.
disk_init_lem_example :
    InitReady (disk_init host 3 (Argument.rpm (pos 7200) ∷ Argument.file ∷ []) 5_243_392 (5, 0))
disk_init_lem_example =
    disk_init_lem host host-GeometryLaws 3 (Argument.rpm (pos 7200) ∷ Argument.file ∷ []) 5_243_392
      (5, 0) (omega arith) (omega arith)

disk_update_lem_example :
    Ensures
      (disk_update 600 port host (disk, machine))
      (λ (dd', w'). port.check_irq 3 w' ≡ is_complete dd'.stat)
disk_update_lem_example = disk_update_lem 600 port host port-DeviceLaws disk machine (omega arith)

disk_fetch-disk_store_example :
    (dd' : Disk) × (disk_store 600 port host true 32772 77 (disk, (7, machine))
      ≡ ok (some (dd', (7, machine))))
    × (disk_fetch true 32772 dd' ≡ ok (some 77))
    × (disk_fetch true 32776 dd' ≡ disk_fetch true 32776 disk)
disk_fetch-disk_store_example =
    disk_fetch-disk_store 600 port host true 32772 32776 77 disk 7 machine nines-size (omega arith)
      (omega arith) (omega arith) (inr (omega arith))

-- Sector 7 is the first one on track 312.
located : locate_sector disk 7 ≡ ok (312, 0)
unfolding locate_sector locate_from
located = refl

here : get_elem? disk.sectors 312 ≡ some 1
here = refl

stale_event_example :
    let waiting = λ (ios : ℕ). record (working false 312 (5, 0) ios 2 disk) { timedop = true } in
    (disk_setstatus 600 state_port state_host 1 (waiting 2, (7, state))
      ≡ ok (waiting 0, (7, state_port.lower_irq 3 state)))
    × Returns
        (disk_waitdone 600 state_port state_host 3 (waiting 0, state))
        (Updated 600 state_port state_host state_image 0)
stale_event_example =
    stale_event 600 state_port state_host state_image state_host-FileLaws disk (5, 0) 2 7 312 1 0
      state state nines-size here (omega arith) (omega arith) (omega arith) located (omega arith)
      (omega arith) state-Serves

-- The disk has arrived at track 312.
abbrev there : Disk
there = record disk { current_track = 312 }

disk_readrotdelay_lem_example : Returns (disk_readrotdelay there 312 0 (5, 3_000_000)) (λ delay.
    (turn : ℕ) × IsTurn 16_666_666 0 0 turn
    × (delay
        ≡ total_nsecs there 312 1 0 here (omega arith) (omega arith) (omega arith) (5, turn)
          - total_nsecs there 312 1 0 here (omega arith) (omega arith) (omega arith) (5, 3_000_000))
    × (delay ≤ 16_666_666))
disk_readrotdelay_lem_example =
    disk_readrotdelay_lem there 312 1 0 here (omega arith) (omega arith) (omega arith)
      (5, 3_000_000) (omega arith) (omega arith) (omega arith) (omega arith) (omega arith)

-- The file after the sector was written.
abbrev written : DiskMachine
unfolding disk_writesector
written = elim (disk_writesector host 600 (disk, machine)) [ ok (err, (dd, w)) ↦ w | _ ↦ machine ]

wrote_sector : disk_writesector host 600 (disk, machine) ≡ ok (false, (disk, written))
unfolding disk_writesector dowrite dowrite_from
wrote_sector = refl

disk_readsector-disk_writesector_example : Returns (disk_readsector host 600 (disk, written)) (
    ReadsBack host image host-FileLaws
      (stored_in host image host-FileLaws 7 nines machine 7)
      written)
disk_readsector-disk_writesector_example =
    disk_readsector-disk_writesector host image host-FileLaws 600 disk disk machine written
      nines-size nines-size (omega arith) (omega arith) wrote_sector
