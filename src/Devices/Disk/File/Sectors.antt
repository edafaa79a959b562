-- ===== src/Devices/Disk/File/Sectors.antt =====
-- What is written to a sector and read back.
use sys.Base.{
  ℕ, ◌+◌, ◌-◌, ◌<◌, ◌≡◌, refl, ◌∙◌, Bool, true, false, List, ◌++◌, length, drop, get_or, ◌==◌,
  if◌then◌else◌, ok, Returns, Returns->>=, Returns-at, length-append, length-drop, arith,
}
use sys.Devices.Disk.{Disk, DiskHost, sector_size}
use sys.Devices.Disk.File.{doread, dowrite, sector_offset, disk_readsector, disk_writesector}
use sys.Devices.Disk.File.Laws.{Image, FileLaws}
use sys.Devices.Disk.File.Transfers.{
  AfterDoread, AfterDowrite, doread_lem, dowrite_lem, get_or-append, get_or-at,
}

module _ {W : Type 0} (host : DiskHost W) (image : Image W) (laws : FileLaws image host) where
  open image use {content, patience}

  -- What the file has in a sector after `buf` was written to the sector `at`.
  abbrev pub stored_in : ℕ → List ℕ → W → ℕ → ℕ → ℕ
  stored_in at buf w sect i =
      if at == sect then get_or buf i 0 else content w (sector_offset sect + i)

  writesector_content :
      (fuel : ℕ) (dd : Disk) (w w' : W)
      → length dd.buf ≡ sector_size
      → patience w + sector_size < fuel
      → disk_writesector host fuel (dd, w) ≡ ok (false, (dd, w'))
      → (sect i : ℕ) → i < sector_size
      → content w' (sector_offset sect + i) ≡ stored_in dd.sect dd.buf w sect i
  unfolding disk_writesector
  writesector_content fuel dd w w' size enough done sect i lt =
      let place = sector_offset dd.sect in
      let written =
        Returns-at (disk_writesector host fuel (dd, w))
          (λ r. AfterDowrite host image laws (content w) place dd.buf (r.0, r.1.1))
          (false, (dd, w'))
          (Returns->>= (dowrite host fuel place dd.is_paranoid dd.buf w) _
            (AfterDowrite host image laws (content w) place dd.buf) _
            (dowrite_lem host image laws fuel place dd.is_paranoid dd.buf w
              (omega (arith, size, enough)))
            (λ (err, w2) h. h))
          done in
      written refl (sector_offset sect + i)
      ∙ ground (arith, size, get_or-at dd.buf (sector_offset sect + i - place) i)

  -- What a read of the sector gives, with or without an error: the file is as it was, and without
  -- one the buffer has the bytes.
  abbrev pub ReadsBack : (ℕ → ℕ) → W → Bool × (Disk × W) → Type 0
  ReadsBack bytes w (true, (dd, w')) = (i : ℕ) → content w' i ≡ content w i
  ReadsBack bytes w (false, (dd, w')) =
      ((i : ℕ) → content w' i ≡ content w i)
      × (length dd.buf ≡ sector_size)
      × ((i : ℕ) → i < sector_size → get_or dd.buf i 0 ≡ bytes i)

  -- Of what was written to a sector without an error, a read of that sector, whatever disk
  -- state does it, gives the bytes, and a read of another one gives what the file had there
  -- before, unless the read ends with an error; the file is left as it was. The buffers have
  -- the size of a sector, and the host interrupts no more often than the fuel has room for.
  pub disk_readsector-disk_writesector :
      (fuel : ℕ) (dd dd' : Disk) (w w' : W)
      → length dd.buf ≡ sector_size
      → length dd'.buf ≡ sector_size
      → patience w + sector_size < fuel
      → patience w' + sector_size < fuel
      → disk_writesector host fuel (dd, w) ≡ ok (false, (dd, w'))
      → Returns
          (disk_readsector host fuel (dd', w'))
          (ReadsBack (stored_in dd.sect dd.buf w dd'.sect) w')
  unfolding disk_readsector
  disk_readsector-disk_writesector fuel dd dd' w w' size size' enough enough' done =
      Returns->>= (doread host fuel (sector_offset dd'.sect) sector_size w') _
        (AfterDoread host image laws (content w') (sector_offset dd'.sect) sector_size) _
        (doread_lem host image laws fuel (sector_offset dd'.sect) sector_size w' enough')
        (λ (err, bytes, w2) h. back err bytes w2 h)
    where
      back :
          (err : Bool) (bytes : List ℕ) (w2 : W)
          → AfterDoread host image laws
              (content w')
              (sector_offset dd'.sect)
              sector_size
              (err, bytes, w2)
          → ReadsBack
              (stored_in dd.sect dd.buf w dd'.sect)
              w'
              (err, (record dd' { buf = bytes ++ drop (length bytes) dd'.buf }, w2))
      back true bytes w2 h = h.0
      back false bytes w2 h =
          let (full, held) = h.1 refl in
          (
            h.0,
            omega (
              arith,
              length-append bytes (drop (length bytes) dd'.buf),
              length-drop (length bytes) dd'.buf,
            ),
            (λ i lt.
                get_or-append bytes (drop (length bytes) dd'.buf) i
                ∙ ground (arith, full, held i)
                ∙ writesector_content fuel dd w w' size enough done dd'.sect i lt),
          )
