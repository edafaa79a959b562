-- ===== src/Devices/Disk/Registers/Buffer.antt =====
-- Words in the transfer buffer.
use sys.Base.{
  ℕ, ◌+◌, ◌-◌, ◌*◌, ◌^◌, ◌≤◌, ◌<◌, ◌≡◌, ◌⊎◌, inl, inr, refl, sym, ◌∙◌, ap, Bool, true, false, List,
  some, get_elem?, set, length, length-set, get_elem?-set_self, get_elem?-set_ne, ltb,
  if◌then◌else◌, Outcome, ok, ◌>>=◌, arith,
}
use sys.Devices.Port.{DevicePort}
use sys.Devices.Disk.{Disk, DiskHost, sector_size}
use sys.Devices.Disk.Registers.{
  buf_start, in_buf, present, byte_at, word_of, fetch_word, byte_of, store_word, disk_fetch,
  disk_store,
}

byte_at-some : (l : List ℕ) (i b : ℕ) → get_elem? l i ≡ some b → byte_at l i ≡ ok b
unfolding byte_at
byte_at-some l i b e = ap present e

byte_at-same : (l l' : List ℕ) (i : ℕ) → get_elem? l i ≡ get_elem? l' i → byte_at l i ≡ byte_at l' i
unfolding byte_at
byte_at-same l l' i e = ap present e

fetch_word-bytes :
    (big : Bool) (l : List ℕ) (i : ℕ)
    → fetch_word big l i
      ≡ word_of big (byte_at l i) (byte_at l (i + 1)) (byte_at l (i + 2)) (byte_at l (i + 3))
unfolding fetch_word
fetch_word-bytes big l i = refl

-- Four bytes at `i`.
abbrev set_word : List ℕ → ℕ → ℕ → ℕ → ℕ → ℕ → List ℕ
set_word l i a b c d = set (set (set (set l i a) (i + 1) b) (i + 2) c) (i + 3) d

module _ (l : List ℕ) (i : ℕ) (inside : i + 3 < length l) (a b c d : ℕ) where
  size_1 : length (set l i a) ≡ length l
  size_1 = length-set l i a

  size_2 : length (set (set l i a) (i + 1) b) ≡ length l
  size_2 = length-set (set l i a) (i + 1) b ∙ size_1

  size_3 : length (set (set (set l i a) (i + 1) b) (i + 2) c) ≡ length l
  size_3 = length-set (set (set l i a) (i + 1) b) (i + 2) c ∙ size_2

  word_bytes :
      (get_elem? (set_word l i a b c d) i ≡ some a)
      × (get_elem? (set_word l i a b c d) (i + 1) ≡ some b)
      × (get_elem? (set_word l i a b c d) (i + 2) ≡ some c)
      × (get_elem? (set_word l i a b c d) (i + 3) ≡ some d)
  word_bytes =
      let l1 = set l i a in
      let l2 = set l1 (i + 1) b in
      let l3 = set l2 (i + 2) c in
      (
        get_elem?-set_ne l3 d (λ e. absurd (omega (arith, e)))
            ∙ get_elem?-set_ne l2 c (λ e. absurd (omega (arith, e)))
            ∙ get_elem?-set_ne l1 b (λ e. absurd (omega (arith, e)))
            ∙ get_elem?-set_self l i a (omega (arith, inside)),
        get_elem?-set_ne l3 d (λ e. absurd (omega (arith, e)))
            ∙ get_elem?-set_ne l2 c (λ e. absurd (omega (arith, e)))
            ∙ get_elem?-set_self l1 (i + 1) b (omega (arith, inside, size_1)),
        get_elem?-set_ne l3 d (λ e. absurd (omega (arith, e)))
            ∙ get_elem?-set_self l2 (i + 2) c (omega (arith, inside, size_2)),
        get_elem?-set_self l3 (i + 3) d (omega (arith, inside, size_3)),
      )

  other_byte : (j : ℕ) → (j < i) ⊎ (i + 3 < j) → get_elem? (set_word l i a b c d) j ≡ get_elem? l j
  other_byte j apart =
      let l1 = set l i a in
      let l2 = set l1 (i + 1) b in
      let l3 = set l2 (i + 2) c in
      get_elem?-set_ne l3 d (λ e. ground (arith, e, apart))
      ∙ get_elem?-set_ne l2 c (λ e. ground (arith, e, apart))
      ∙ get_elem?-set_ne l1 b (λ e. ground (arith, e, apart))
      ∙ get_elem?-set_ne l a (λ e. ground (arith, e, apart))

  fetch_stored :
      (big : Bool)
      → fetch_word big (set_word l i a b c d) i ≡ word_of big (ok a) (ok b) (ok c) (ok d)
  fetch_stored big =
      let (first, second, third, fourth) = word_bytes in
      fetch_word-bytes big (set_word l i a b c d) i
      ∙ rw
          (
            byte_at-some _ _ _ first,
            byte_at-some _ _ _ second,
            byte_at-some _ _ _ third,
            byte_at-some _ _ _ fourth,
          )
          refl

  fetch_other :
      (big : Bool) (j : ℕ)
      → (j + 4 ≤ i) ⊎ (i + 4 ≤ j)
      → fetch_word big (set_word l i a b c d) j ≡ fetch_word big l j
  fetch_other big j apart =
      fetch_word-bytes big (set_word l i a b c d) j
      ∙ rw
          (
            byte_at-same (set_word l i a b c d) l j (other_byte j (within_0 apart)),
            byte_at-same (set_word l i a b c d) l (j + 1)
                (other_byte (j + 1) (within 1 (omega arith) apart)),
            byte_at-same (set_word l i a b c d) l (j + 2)
                (other_byte (j + 2) (within 2 (omega arith) apart)),
            byte_at-same (set_word l i a b c d) l (j + 3)
                (other_byte (j + 3) (within 3 (omega arith) apart)),
          )
          (sym (fetch_word-bytes big l j))
    where
      within_0 : (j + 4 ≤ i) ⊎ (i + 4 ≤ j) → (j < i) ⊎ (i + 3 < j)
      within_0 (inl h) = inl (omega arith)
      within_0 (inr h) = inr (omega arith)

      within : (k : ℕ) → k < 4 → (j + 4 ≤ i) ⊎ (i + 4 ≤ j) → (j + k < i) ⊎ (i + 3 < j + k)
      within k lt (inl h) = inl (omega arith)
      within k lt (inr h) = inr (omega arith)

module _ {W : Type 0} (fuel : ℕ) (port : DevicePort W) (host : DiskHost W) where
  -- A word stored into the buffer is read back, whatever the byte order of the cpu, and what is read
  -- at an offset that does not overlap it is as it was.
  pub disk_fetch-disk_store :
      (big : Bool) (offset other val : ℕ) (dd : Disk) (doom : ℕ) (w : W)
      → length dd.buf ≡ sector_size
      → buf_start ≤ offset
      → offset + 4 ≤ buf_start + sector_size
      → val < 2 ^ 32
      → (other + 4 ≤ offset) ⊎ (offset + 4 ≤ other)
      → (dd' : Disk) × (disk_store fuel port host big offset val (dd, (doom, w))
          ≡ ok (some (dd', (doom, w))))
        × (disk_fetch big offset dd' ≡ ok (some val))
        × (disk_fetch big other dd' ≡ disk_fetch big other dd)
  unfolding disk_store disk_fetch store_word word_of
  disk_fetch-disk_store big offset other val dd doom w size lo hi word apart =
      let i = offset - buf_start in
      let inside : i + 3 < length dd.buf = omega (arith, size) in
      let a = byte_of val (if big then 3 else 0) in
      let b = byte_of val (if big then 2 else 1) in
      let c = byte_of val (if big then 1 else 2) in
      let d = byte_of val (if big then 0 else 3) in
      let here : in_buf offset ≡ true = ground arith in
      let fits : ltb (i + 3) (length dd.buf) ≡ true = ground (arith, inside) in
      (
        record dd { buf = set_word dd.buf i a b c d },
        rw (here, fits) refl,
        rw (here, fetch_stored dd.buf i inside a b c d big) (ap (λ v. ok (some v)) (whole big)),
        elsewhere i refl inside a b c d (in_buf other) refl,
      )
    where
      whole :
          (big : Bool)
          → (if big
              then byte_of val (if big then 3 else 0) * 2 ^ 24
                + byte_of val (if big then 2 else 1) * 2 ^ 16
                + byte_of val (if big then 1 else 2) * 2 ^ 8
                + byte_of val (if big then 0 else 3)
              else byte_of val (if big then 0 else 3) * 2 ^ 24
                + byte_of val (if big then 1 else 2) * 2 ^ 16
                + byte_of val (if big then 2 else 1) * 2 ^ 8
                + byte_of val (if big then 3 else 0))
            ≡ val
      whole true = omega arith
      whole false = omega arith

      elsewhere :
          (i : ℕ)
          → i ≡ offset - buf_start
          → i + 3 < length dd.buf
          → (a b c d : ℕ) (inb : Bool) → in_buf other ≡ inb
          → disk_fetch big other (record dd { buf = set_word dd.buf i a b c d })
            ≡ disk_fetch big other dd
      elsewhere i at inside a b c d true e =
          let from : buf_start ≤ other = ground (arith, e) in
          rw e (
            ap (λ (m : Outcome ℕ). m >>= λ v. ok (some v))
              (fetch_other dd.buf i inside a b c d big (other - buf_start) (elim apart [
                | inl h ↦ inl (omega (arith, h, at, from, lo))
                | inr h ↦ inr (omega (arith, h, at, from, lo))
              ])))
      elsewhere i at inside a b c d false e = rw e refl
