-- ===== src/Devices/Disk/File/Laws.antt =====
-- What the disk relies on of the host's file: POSIX `lseek`, `read` and `write`.
use sys.Base.{ℕ, ◌+◌, ◌-◌, ◌≤◌, ◌<◌, ◌≡◌, true, ◌&&◌, leb, ltb, if◌then◌else◌, List, length, get_or}
use sys.Devices.Disk.{
  DiskHost, ReadResult, WriteResult, read_again, read_failed, read_bytes, write_again, write_failed,
  wrote,
}

-- What a file holds: its bytes (0 behind its end), its size, the position in it, and how often it
-- will still be interrupted before it makes progress.
pub record Image (W : Type 0) : Type 0 where
  pub content : W → ℕ → ℕ
  pub size : W → ℕ
  pub position : W → ℕ
  pub patience : W → ℕ

module _ {W : Type 0} (image : Image W) where
  open image use {content, size, position, patience}

  -- The file holds what it held.
  abbrev pub Unchanged : W → W → Type 0
  Unchanged w w' = (i : ℕ) → content w' i ≡ content w i

  -- What `read` of at most `n` bytes does.
  abbrev pub AfterRead : ℕ → W → ReadResult × W → Type 0
  AfterRead n w (read_again, w') =
      Unchanged w w' × (position w' ≡ position w) × (patience w' < patience w)
  AfterRead n w (read_failed, w') = Unchanged w w'
  AfterRead n w (read_bytes bytes, w') =
      Unchanged w w'
      × (position w' ≡ position w + length bytes)
      × (patience w' ≤ patience w)
      × (length bytes ≤ n)
      × ((i : ℕ) → i < length bytes → get_or bytes i 0 ≡ content w (position w + i))
      × (0 < n → length bytes ≡ 0 → size w ≤ position w)

  -- What `write` of `bytes` does.
  abbrev pub AfterWrite : List ℕ → W → WriteResult × W → Type 0
  AfterWrite bytes w (write_again, w') =
      Unchanged w w' × (position w' ≡ position w) × (patience w' < patience w)
  AfterWrite bytes w (write_failed, w') = Unchanged w w'
  AfterWrite bytes w (wrote r, w') =
      (position w' ≡ position w + r)
      × (patience w' ≤ patience w)
      × (r ≤ length bytes)
      × ((i : ℕ)
          → content w' i ≡ (
              if leb (position w) i && ltb i (position w + r)
              then get_or bytes (i - position w) 0
              else content w i))

  pub record FileLaws (host : DiskHost W) : Type 0 where
    pub beyond : (w : W) (i : ℕ) → size w ≤ i → content w i ≡ 0
    pub seeks :
        (offset : ℕ) (w : W)
        → (let (found, w') = host.lseek offset w in
            Unchanged w w' × (patience w' ≤ patience w) × (found ≡ true → position w' ≡ offset))
    pub reads : (n : ℕ) (w : W) → AfterRead n w (host.read n w)
    pub writes : (bytes : List ℕ) (w : W) → AfterWrite bytes w (host.write bytes w)
    pub syncs : (w : W) → Unchanged w (host.fsync w).1
