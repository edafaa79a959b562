-- ===== src/Devices/Disk/File/Transfers.antt =====
-- Whole transfers, through calls that may be interrupted or transfer only a part.
use sys.Base.{
  ℕ, zero, suc, ◌+◌, ◌-◌, ◌≤◌, ◌<◌, ◌≡◌, refl, sym, ◌∙◌, ap, Bool, true, false, ◌&&◌, List, [], ◌∷◌,
  ◌++◌, length, drop, replicate, get_or, leb, ltb, ◌==◌, if◌then◌else◌, ok, Returns, Returns-if,
  Bool-cases, inl, inr, length-append, length-replicate, length-drop, arith,
}
use sys.Devices.Disk.{
  DiskHost, ReadResult, WriteResult, read_again, read_failed, read_bytes, write_again, write_failed,
  wrote,
}
use sys.Devices.Disk.File.{doread_from, doread, dowrite_from, dowrite}
use sys.Devices.Disk.File.Laws.{Image, FileLaws, AfterRead, AfterWrite}

-- An element of two lists put together.
pub get_or-append :
    (xs ys : List ℕ) (i : ℕ)
    → get_or (xs ++ ys) i 0
      ≡ (if ltb i (length xs) then get_or xs i 0 else get_or ys (i - length xs) 0)
get_or-append [] ys i = ground arith
get_or-append (x ∷ xs) ys zero = ground arith
get_or-append (x ∷ xs) ys (suc i) = ground (arith, get_or-append xs ys i)

pub get_or-at : (xs : List ℕ) (i j : ℕ) → i ≡ j → get_or xs i 0 ≡ get_or xs j 0
get_or-at xs i j e = ap (λ k. get_or xs k 0) e

get_or-replicate : (n i : ℕ) → get_or {A = ℕ} (replicate n 0) i 0 ≡ 0
get_or-replicate zero i = refl
get_or-replicate (suc n) zero = refl
get_or-replicate (suc n) (suc i) = get_or-replicate n i

get_or-drop : (n : ℕ) (xs : List ℕ) (i : ℕ) → get_or (drop n xs) i 0 ≡ get_or xs (n + i) 0
get_or-drop zero xs i = ap (λ k. get_or xs k 0) (omega arith)
get_or-drop (suc n) [] i = refl
get_or-drop (suc n) (x ∷ xs) i =
    let next : suc n + i ≡ suc (n + i) = omega arith in rw next (get_or-drop n xs i)

module _ {W : Type 0} (host : DiskHost W) (image : Image W) (laws : FileLaws image host) where
  open image use {content, size, position, patience}

  -- The bytes are those of the file from `offset` on.
  abbrev Holds : (ℕ → ℕ) → ℕ → List ℕ → Type 0
  Holds file offset bytes = (i : ℕ) → i < length bytes → get_or bytes i 0 ≡ file (offset + i)

  -- What a read gives: the file is as it was, and without an error the bytes are all there.
  abbrev pub AfterDoread : (ℕ → ℕ) → ℕ → ℕ → Bool × List ℕ × W → Type 0
  AfterDoread file offset n (err, bytes, w') =
      ((i : ℕ) → content w' i ≡ file i)
      × (err ≡ false → (length bytes ≡ n) × Holds file offset bytes)

  Holds-append :
      (file : ℕ → ℕ) (offset : ℕ) (xs ys : List ℕ)
      → Holds file offset xs
      → Holds file (offset + length xs) ys
      → Holds file offset (xs ++ ys)
  Holds-append file offset xs ys h h' i lt = elim (Bool-cases (ltb i (length xs))) [
    | inl t ↦ rw (get_or-append xs ys i, t) (h i (ground arith))
    | inr f ↦
        rw (get_or-append xs ys i, f)
          (h' (i - length xs) (ground (arith, length-append xs ys)) ∙ ap file (ground arith))
  ]

  -- What is known before each round of the loop of `doread`.
  abbrev Reading : ℕ → ℕ → (ℕ → ℕ) → ℕ → List ℕ → W → Type 0
  Reading fuel n file offset done w =
      (patience w + (n - length done) < fuel)
      × (length done ≤ n)
      × ((i : ℕ) → content w i ≡ file i)
      × (length done < n → position w ≡ offset + length done)
      × Holds file offset done

  abbrev Round : ℕ → ℕ → (ℕ → ℕ) → ℕ → Type 0
  Round fuel n file offset =
      (done : List ℕ) (w : W)
      → Reading fuel n file offset done w
      → Returns (doread_from host fuel n done w) (AfterDoread file offset n)

  -- A round that has bytes left to read.
  reads_on :
      (fuel n : ℕ) (file : ℕ → ℕ) (offset : ℕ) (done : List ℕ) (w : W)
      → Round fuel n file offset
      → Reading (suc fuel) n file offset done w
      → length done < n
      → (r : ReadResult × W) → AfterRead image (n - length done) w r
      → Returns
          (elim r.0 [
            | read_again ↦ doread_from host fuel n done r.1
            | read_failed ↦ ok (true, done, r.1)
            | read_bytes bytes ↦
                doread_from host fuel n
                  (done ++ (if length bytes == 0 then replicate (n - length done) 0 else bytes))
                  r.1
          ])
          (AfterDoread file offset n)
  reads_on fuel n file offset done w again (enough, le, same, at, h) more (read_again, w')
        (kept, still, fewer) =
      again done w' (omega (arith, enough), le, (λ i. kept i ∙ same i), (λ lt. still ∙ at lt), h)
  reads_on fuel n file offset done w again (enough, le, same, at, h) more (read_failed, w') kept =
      ((λ i. kept i ∙ same i), λ e. absurd (cc))
  reads_on fuel n file offset done w again (enough, le, same, at, h) more (read_bytes bytes, w')
        (kept, moved, fewer, fits, read, end) =
      elim (length bytes == 0)
          as (λ b.
            (length bytes == 0) ≡ b
            → Returns (doread_from host fuel n (done ++ (if b then zeros else bytes)) w')
                (AfterDoread file offset n)) [
                  | true ↦ λ t.
                      let full : length (done ++ zeros) ≡ n = omega (
                        arith,
                        length-append done zeros,
                        length-replicate {A = ℕ} (n - length done) 0,
                        le,
                      ) in
                      again (done ++ zeros) w' (
                        omega (arith, full, enough, fewer),
                        omega (arith, full),
                        (λ i. kept i ∙ same i),
                        (λ lt. absurd (omega (arith, full, lt))),
                        Holds-append file offset done zeros h
                            (past_end (end (omega (arith, more)) (ground arith))),
                      )
                  | false ↦ λ f.
                      let longer = length-append done bytes in
                      again (done ++ bytes) w' (
                        ground (arith, longer, enough, fewer),
                        omega (arith, longer, fits),
                        (λ i. kept i ∙ same i),
                        (λ lt. omega (arith, longer, moved, at more)),
                        Holds-append file offset done bytes h (λ i lt. read i lt ∙ here i),
                      )
                ]
        refl
    where
      zeros : List ℕ
      zeros = replicate (n - length done) 0

      here : (i : ℕ) → content w (position w + i) ≡ file (offset + length done + i)
      here i = rw (at more) (same (offset + length done + i))

      past_end : size w ≤ position w → Holds file (offset + length done) zeros
      past_end le' i lt =
          get_or-replicate (n - length done) i
          ∙ sym (laws.beyond w (position w + i) (omega (arith, le')))
          ∙ here i

  doread_from_lem :
      (fuel n : ℕ) (file : ℕ → ℕ) (offset : ℕ) (done : List ℕ) (w : W)
      → Reading fuel n file offset done w
      → Returns (doread_from host fuel n done w) (AfterDoread file offset n)
  unfolding doread_from
  doread_from_lem zero n file offset done w h = absurd (omega (arith, h.0))
  doread_from_lem (suc fuel) n file offset done w h =
      Returns-if (leb n (length done)) _ _ (AfterDoread file offset n)
        (λ t. (h.2, λ e. (ground (arith, h.1), h.4)))
        (λ f.
          reads_on fuel n file offset done w (doread_from_lem fuel n file offset) h (ground arith)
            (host.read (n - length done) w) (laws.reads (n - length done) w))

  -- Where the host interrupts no more often than the fuel has room for, a read of `n` bytes returns;
  -- it leaves the file as it was, and without an error it gives the bytes from `offset` on, zeros
  -- behind the end.
  pub doread_lem :
      (fuel offset n : ℕ) (w : W)
      → patience w + n < fuel
      → Returns (doread host fuel offset n w) (AfterDoread (content w) offset n)
  unfolding doread
  doread_lem fuel offset n w enough =
      let (kept, fewer, found) = laws.seeks offset w in
      let w' = (host.lseek offset w).1 in
      Returns-if (host.lseek offset w).0 _ _ (AfterDoread (content w) offset n)
        (λ t. doread_from_lem fuel n (content w) offset [] w' (
          omega (arith, enough, fewer),
          omega arith,
          kept,
          (λ lt. omega (arith, found t)),
          (λ i lt. absurd (omega (arith, lt))),
        ))
        (λ f. (kept, λ e. absurd (cc)))

  -- What a write gives: without an error the bytes are in the file and the rest of it is as it was.
  abbrev pub AfterDowrite : (ℕ → ℕ) → ℕ → List ℕ → Bool × W → Type 0
  AfterDowrite file offset bytes (err, w') =
      err ≡ false
      → (i : ℕ)
      → content w' i ≡ (
          if leb offset i && ltb i (offset + length bytes)
          then get_or bytes (i - offset) 0
          else file i)

  -- What is known before each round of the loop of `dowrite`, with `rest` left to write.
  abbrev Writing : ℕ → List ℕ → (ℕ → ℕ) → ℕ → List ℕ → W → Type 0
  Writing fuel bytes file offset rest w =
      let sent = length bytes - length rest in
      (length rest ≤ length bytes)
      × (patience w + length rest < fuel)
      × (position w ≡ offset + sent)
      × ((i : ℕ) → i < length rest → get_or rest i 0 ≡ get_or bytes (sent + i) 0)
      × ((i : ℕ)
          → content w i ≡ (
              if leb offset i && ltb i (offset + sent)
              then get_or bytes (i - offset) 0
              else file i))

  writes_on :
      (fuel : ℕ) (paranoid : Bool) (bytes : List ℕ) (file : ℕ → ℕ) (offset : ℕ) (rest : List ℕ)
      (w : W)
      → ((rest' : List ℕ) (w' : W)
          → Writing fuel bytes file offset rest' w'
          → Returns (dowrite_from host fuel paranoid rest' w') (AfterDowrite file offset bytes))
      → Writing (suc fuel) bytes file offset rest w
      → (r : WriteResult × W) → AfterWrite image rest w r
      → Returns
          (elim r.0 [
            | write_again ↦ dowrite_from host fuel paranoid rest r.1
            | write_failed ↦ ok (true, r.1)
            | wrote n ↦
                if n == 0 then ok (true, r.1) else dowrite_from host fuel paranoid (drop n rest) r.1
          ])
          (AfterDowrite file offset bytes)
  writes_on fuel paranoid bytes file offset rest w again (fits, enough, at, left, sent)
        (write_again, w') (kept, still, fewer) =
      again rest w' (fits, omega (arith, enough), still ∙ at, left, (λ i. kept i ∙ sent i))
  writes_on fuel paranoid bytes file offset rest w again h (write_failed, w') kept =
      λ e. absurd (cc)
  writes_on fuel paranoid bytes file offset rest w again (fits, enough, at, left, sent)
        (wrote n, w') (moved, fewer, some, written) =
      Returns-if (n == 0) _ _ (AfterDowrite file offset bytes) (λ t e. absurd (cc))
        (λ f.
          let shorter = length-drop n rest in
          again (drop n rest) w' (
            omega (arith, shorter),
            ground (arith, shorter, enough, fewer, f),
            omega (arith, shorter, moved, at, some),
            (λ i lt.
                get_or-drop n rest i
                ∙ left (n + i) (omega (arith, shorter, lt))
                ∙ get_or-at bytes _ _ (omega (arith, shorter, some, fits))),
            (λ i.
                written i
                ∙ ground (
                  arith,
                  shorter,
                  at,
                  some,
                  fits,
                  sent i,
                  left (i - position w),
                  get_or-at bytes (length bytes - length rest + (i - position w)) (i - offset),
                )),
          ))

  dowrite_from_lem :
      (fuel : ℕ) (paranoid : Bool) (bytes : List ℕ) (file : ℕ → ℕ) (offset : ℕ) (rest : List ℕ)
      (w : W)
      → Writing fuel bytes file offset rest w
      → Returns (dowrite_from host fuel paranoid rest w) (AfterDowrite file offset bytes)
  unfolding dowrite_from
  dowrite_from_lem zero paranoid bytes file offset rest w h = absurd (omega (arith, h.1))
  dowrite_from_lem (suc fuel) paranoid bytes file offset rest w h =
      Returns-if (length rest == 0) _ _ (AfterDowrite file offset bytes)
        (λ t.
          let all : length bytes - length rest ≡ length bytes = ground arith in
          Returns-if paranoid _ _ (AfterDowrite file offset bytes)
            (λ p e i. laws.syncs w i ∙ rw all at (h.4 i)) (λ p e i. rw all at (h.4 i)))
        (λ f.
          writes_on fuel paranoid bytes file offset rest w
            (dowrite_from_lem fuel paranoid bytes file offset) h (host.write rest w)
            (laws.writes rest w))

  -- Where the host interrupts no more often than the fuel has room for, a write returns, and without
  -- an error it puts the bytes at `offset` into the file and changes nothing else in it.
  pub dowrite_lem :
      (fuel offset : ℕ) (paranoid : Bool) (bytes : List ℕ) (w : W)
      → patience w + length bytes < fuel
      → Returns (dowrite host fuel offset paranoid bytes w) (AfterDowrite (content w) offset bytes)
  unfolding dowrite
  dowrite_lem fuel offset paranoid bytes w enough =
      let (kept, fewer, found) = laws.seeks offset w in
      let w' = (host.lseek offset w).1 in
      Returns-if (host.lseek offset w).0 _ _ (AfterDowrite (content w) offset bytes)
        (λ t. dowrite_from_lem fuel paranoid bytes (content w) offset bytes w' (
          omega arith,
          omega (arith, enough, fewer),
          omega (arith, found t),
          (λ i lt. get_or-at bytes _ _ (omega arith)),
          (λ i. kept i ∙ ground arith),
        ))
        (λ f e. absurd (cc))
