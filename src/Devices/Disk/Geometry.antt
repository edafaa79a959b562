-- ===== src/Devices/Disk/Geometry.antt =====
-- The sectors on the tracks: `compute_sectors` and `locate_sector`.
pub mod Places
use sys.Base.{
  ℕ, zero, suc, ◌+◌, ◌-◌, Bool, true, false, ◌&&◌, List, [], ◌∷◌, ◌++◌, Option, none, some,
  get_elem?, length, u32, ltb, leb, if◌then◌else◌, Outcome, ok, smoke, undefined, ◌>>=◌,
}
use sys.Devices.Disk.{Disk, DiskHost, num_tracks}

-- The sum in `compute_sectors`, from `tot`.
unfoldable pub total_from : ℕ → List ℕ → ℕ
total_from tot [] = tot
total_from tot (n ∷ rest) = total_from (u32 (tot + n)) rest

-- `locate_sector` from track `i` inwards, where the tracks outside have `start` sectors: the track
-- and the place on it.
unfoldable pub locate_from : List ℕ → ℕ → ℕ → ℕ → Outcome (ℕ × ℕ)
locate_from sectors zero start sector = smoke
locate_from sectors (suc tr) start sector = elim (get_elem? sectors tr) [
  | none ↦ undefined
  | some n ↦
      let end = u32 (start + n) in
      let inner = locate_from sectors tr end sector in
      if leb start sector && ltb sector end then ok (tr, sector - start) else inner
]

unfoldable pub locate_sector : Disk → ℕ → Outcome (ℕ × ℕ)
unfolding locate_from
locate_sector dd sector = locate_from dd.sectors (length dd.sectors) 0 sector

module _ {W : Type 0} (host : DiskHost W) where
  open host use {physical, sectors_on}

  -- The loop over the tracks, with the tracks that are left: the list of their sectors, or a `none`
  -- where a track is too small.
  unfoldable pub tracks_from : ℕ → ℕ → ℕ → Option (List ℕ)
  tracks_from phys zero i = some []
  tracks_from phys (suc left) i =
      let rest = tracks_from phys left (i + 1) in
      if ltb (sectors_on phys i) 2
      then none
      else elim rest [ none ↦ none | some l ↦ some ((sectors_on phys i - 1) ∷ l) ]

  -- `compute_sectors`: a `none` for the -1. C leaves the conversion of a number that does not fit
  -- open.
  unfoldable pub compute_sectors : Disk → Outcome (Option Disk)
  unfolding tracks_from total_from
  compute_sectors dd =
      let phys = physical dd.totsectors in
      if ltb 0xffff_ffff phys
      then undefined
      else if ltb phys dd.totsectors
      then smoke
      else elim (tracks_from phys num_tracks 0) [
        | none ↦ ok none
        | some l ↦
            if ltb (total_from 0 l) dd.totsectors
            then ok none
            else ok (some (record dd { sectors = l }))
      ]
