-- ===== src/Devices/Disk/Geometry/Places.antt =====
-- Every sector has its place on a track.
use sys.Base.{
  ℕ, zero, suc, ◌+◌, ◌-◌, ◌*◌, ◌/◌, ◌^◌, ◌≤◌, ◌<◌, ◌≡◌, refl, sym, ◌∙◌, ap, Bool, true, false, ◌&&◌,
  List, [], ◌∷◌, Option, none, some, get_elem?, get_elem?-in, length, drop, u32, ltb, leb,
  if◌then◌else◌, Outcome, ok, undefined, Returns, Returns-if, either, arith,
}
use sys.Devices.Disk.{Disk, DiskHost, num_tracks}
use sys.Devices.Disk.Geometry.{total_from, locate_from, locate_sector, tracks_from, compute_sectors}

-- The sectors of some tracks together.
abbrev pub sum : List ℕ → ℕ
sum [] = 0
sum (n ∷ rest) = n + sum rest

-- A geometry that `compute_sectors` may leave: each track has a sector, all tracks together have
-- those of the disk, and the number of them is a word.
pub record IsGeometry (dd : Disk) : Type 0 where
  pub tracks : length dd.sectors ≡ num_tracks
  pub used : (i n : ℕ) → get_elem? dd.sectors i ≡ some n → 0 < n
  pub enough : dd.totsectors ≤ sum dd.sectors
  pub small : sum dd.sectors < 2 ^ 32

sum-drop :
    (l : List ℕ) (i n : ℕ) → get_elem? l i ≡ some n → sum (drop i l) ≡ n + sum (drop (suc i) l)
sum-drop [] i n e = absurd (cc)
sum-drop (x ∷ l) zero n e = ground arith
sum-drop (x ∷ l) (suc i) n e = sum-drop l i n e

sum-drop-le : (l : List ℕ) (i : ℕ) → sum (drop i l) ≤ sum l
sum-drop-le l zero = omega arith
sum-drop-le [] (suc i) = omega arith
sum-drop-le (x ∷ l) (suc i) = omega (arith, sum-drop-le l i)

sum-drop_all : (l : List ℕ) → sum (drop (length l) l) ≡ 0
sum-drop_all [] = refl
sum-drop_all (x ∷ l) = sum-drop_all l

total_from-sum : (tot : ℕ) (l : List ℕ) → tot + sum l < 2 ^ 32 → total_from tot l ≡ tot + sum l
unfolding total_from
total_from-sum tot [] h = omega arith
total_from-sum tot (n ∷ l) h =
    let whole : u32 (tot + n) ≡ tot + n = omega (arith, h) in
    rw whole (total_from-sum (tot + n) l (omega (arith, h)) ∙ omega arith)

-- The place of a sector: the sectors outside its track and those before it on the track.
abbrev pub IsPlace : List ℕ → ℕ → ℕ × ℕ → Type 0
IsPlace sectors sector (tr, rotoffset) =
    (n : ℕ) × (get_elem? sectors tr ≡ some n)
    × (rotoffset < n)
    × (sector ≡ sum (drop (suc tr) sectors) + rotoffset)

-- What is known before each round of `locate_sector`.
abbrev Searching : List ℕ → ℕ → ℕ → ℕ → Type 0
Searching l i start sector =
    (sum l < 2 ^ 32)
    × (i ≤ length l)
    × (start ≡ sum (drop i l))
    × (start ≤ sector)
    × (sector < sum l)

locate_on :
    (l : List ℕ) (track start sector : ℕ)
    → ((start' : ℕ)
        → Searching l track start' sector
        → Returns (locate_from l track start' sector) (IsPlace l sector))
    → Searching l (suc track) start sector
    → (o : Option ℕ) → get_elem? l track ≡ o
    → Returns
        (elim o [
          | none ↦ undefined
          | some n ↦
              let end = u32 (start + n) in
              let inner = locate_from l track end sector in
              if leb start sector && ltb sector end then ok (track, sector - start) else inner
        ])
        (IsPlace l sector)
locate_on l track start sector again (small, le, e, lo, hi) none gone =
    let (n, there) = get_elem?-in l track (omega (arith, le)) in cc
locate_on l track start sector again (small, le, e, lo, hi) (some n) there =
    let step = sum-drop l track n there in
    let end : u32 (start + n) ≡ start + n = omega (arith, step, sum-drop-le l track, e, small) in
    Returns-if (leb start sector && ltb sector (u32 (start + n))) _ _ (IsPlace l sector)
      (λ t. (n, there, ground (arith, t, end), omega (arith, e, lo)))
      (λ f.
        again (u32 (start + n))
          (small, omega (arith, le), omega (arith, end, step, e), ground (arith, f, end, lo), hi))

locate_from_lem :
    (l : List ℕ) (i start sector : ℕ)
    → Searching l i start sector
    → Returns (locate_from l i start sector) (IsPlace l sector)
unfolding locate_from
locate_from_lem l zero start sector (small, le, e, lo, hi) = absurd (omega (arith, e, lo, hi))
locate_from_lem l (suc track) start sector h =
    locate_on l track start sector (λ start' h'. locate_from_lem l track start' sector h') h
      (get_elem? l track) refl

-- With a valid geometry, `locate_sector` finds for each sector of the disk its track and its place
-- there: the sector's number is that of the sectors on the tracks outside plus the place.
pub locate_sector_lem :
    (dd : Disk) (sector : ℕ)
    → IsGeometry dd
    → sector < dd.totsectors
    → Returns (locate_sector dd sector) (IsPlace dd.sectors sector)
unfolding locate_sector
locate_sector_lem dd sector valid h = locate_from_lem dd.sectors (length dd.sectors) 0 sector (
  valid.small,
  omega arith,
  sym (sum-drop_all dd.sectors),
  omega arith,
  omega (arith, h, valid.enough),
)

-- What the geometry relies on of the floating-point computations: the physical sectors are less than
-- twice those of the disk, with SECTOR_FUDGE at 1.06; and with the areas of the tracks, of which the
-- outermost is 0.4994 % of the platter, no track has more than one in 200 of them.
pub record GeometryLaws {W : Type 0} (host : DiskHost W) : Type 0 where
  pub physical-le : (n : ℕ) → host.physical n ≤ 2 * n
  pub sectors-le : (n i : ℕ) → i < num_tracks → host.sectors_on n i ≤ n / 200

module _ {W : Type 0} (host : DiskHost W) (areas : GeometryLaws host) where
  -- The lists that `compute_sectors` makes.
  abbrev Tracks : ℕ → Option (List ℕ) → Type 0
  Tracks n none = Unit
  Tracks n (some l) =
      (length l ≡ n) × ((i m : ℕ) → get_elem? l i ≡ some m → 0 < m) × (sum l ≤ n * 2 ^ 17)

  tracks_from_lem :
      (phys n i : ℕ) → phys ≤ 2 ^ 24 → n + i ≤ num_tracks → Tracks n (tracks_from host phys n i)
  unfolding tracks_from
  tracks_from_lem phys zero i small inside = (refl, (λ j m e. absurd (cc)), omega arith)
  tracks_from_lem phys (suc n) i small inside =
      round (ltb (host.sectors_on phys i) 2) refl (tracks_from host phys n (i + 1))
        (tracks_from_lem phys n (i + 1) small (omega (arith, inside)))
    where
      used :
          (l : List ℕ)
          → ltb (host.sectors_on phys i) 2 ≡ false
          → ((j m : ℕ) → get_elem? l j ≡ some m → 0 < m)
          → (j m : ℕ) → get_elem? ((host.sectors_on phys i - 1) ∷ l) j ≡ some m
          → 0 < m
      used l f h zero m e = ground (arith, f)
      used l f h (suc j) m e = h j m e

      round :
          (b : Bool)
          → ltb (host.sectors_on phys i) 2 ≡ b
          → (rest : Option (List ℕ)) → Tracks n rest
          → Tracks (suc n) (
              if b
              then none
              else elim rest [ none ↦ none | some l ↦ some ((host.sectors_on phys i - 1) ∷ l) ])
      round true t rest h = tt
      round false f none h = tt
      round false f (some l) (len, each, few') = (
        ap suc len,
        used l f each,
        omega (arith, areas.sectors-le phys i (omega (arith, inside)), few', small),
      )

  -- What `compute_sectors` has set up where it succeeds.
  abbrev pub SetUp : Disk → Outcome (Option Disk) → Type 0
  SetUp dd (ok (some dd')) = IsGeometry dd' × (dd' ≡ record dd { sectors = dd'.sectors })
  SetUp dd _ = Unit

  pub compute_sectors_lem :
      (dd : Disk) → dd.totsectors ≤ 2 ^ 23 → SetUp dd (compute_sectors host dd)
  unfolding compute_sectors
  compute_sectors_lem dd small =
      either (SetUp dd) (ltb 0xffff_ffff (host.physical dd.totsectors)) tt (
        either (SetUp dd) (ltb (host.physical dd.totsectors) dd.totsectors) tt (
          finish (tracks_from host (host.physical dd.totsectors) num_tracks 0) (
            tracks_from_lem (host.physical dd.totsectors) num_tracks 0
              (omega (arith, areas.physical-le dd.totsectors, small)) (omega arith))))
    where
      finish :
          (o : Option (List ℕ))
          → Tracks num_tracks o
          → SetUp dd (elim o [
            | none ↦ ok none
            | some l ↦
                if ltb (total_from 0 l) dd.totsectors
                then ok none
                else ok (some (record dd { sectors = l }))
          ])
      finish none h = tt
      finish (some l) (len, each, few') =
          elim (ltb (total_from 0 l) dd.totsectors)
              as (λ b.
                ltb (total_from 0 l) dd.totsectors ≡ b
                → SetUp dd (if b then ok none else ok (some (record dd { sectors = l })))) [
                  | true ↦ λ t. tt
                  | false ↦ λ f. (
                    record {
                      tracks = len;
                      used = each;
                      enough = ground (arith, f, total_from-sum 0 l (omega (arith, few')));
                      small = omega (arith, few');
                    },
                    refl,
                  )
                ]
            refl
