-- ===== src/Devices/Disk/Timing/Rotation.antt =====
-- The rotational delays, in whole nanoseconds.
use sys.Base.{
  ℕ, zero, suc, ◌+◌, ◌-◌, ◌*◌, ◌/◌, ◌%◌, ◌^◌, ◌≤◌, ◌<◌, ◌≡◌, refl, ◌⊎◌, inl, inr, some, get_elem?,
  u32, sub32, ltb, leb, ok, Returns, Returns->>=, Returns-if, Returns-mono, arith,
}
use native.Mathlib.Nat.{div-mul-le_self, mul-le-mul_right, mod-lt, suc-mul}
use sys.Devices.Disk.{Disk}
use sys.Devices.Disk.Timing.{
  second, next_turn, carry_secs, sectors_of, wait_until, disk_readrotdelay, disk_writerotdelay,
}

-- From `nsecs` on, the first time that is not before `limit` at which the platter is turned as it
-- is at `nsecs`.
abbrev pub IsTurn : ℕ → ℕ → ℕ → ℕ → Type 0
IsTurn rev limit nsecs turn =
    (k : ℕ) × (turn ≡ nsecs + k * rev) × (limit ≤ turn) × ((turn ≡ nsecs) ⊎ (turn < limit + rev))

next_turn_lem :
    (fuel rev limit nsecs : ℕ)
    → 0 < rev
    → rev ≤ second
    → limit ≤ second
    → limit - nsecs < fuel
    → Returns (next_turn fuel rev limit nsecs) (IsTurn rev limit nsecs)
unfolding next_turn
next_turn_lem zero rev limit nsecs pos_rev small le enough = absurd (omega arith)
next_turn_lem (suc fuel) rev limit nsecs pos_rev small le enough =
    Returns-if (ltb nsecs limit) _ _ (IsTurn rev limit nsecs)
      (λ t.
        let before : nsecs < limit = ground arith in
        let whole : u32 (nsecs + rev) ≡ nsecs + rev = omega arith in
        Returns-mono (next_turn fuel rev limit (u32 (nsecs + rev)))
          (IsTurn rev limit (u32 (nsecs + rev))) (IsTurn rev limit nsecs)
          (next_turn_lem fuel rev limit (u32 (nsecs + rev)) pos_rev small le (omega (arith, whole)))
          (λ turn (k, is, ge, last).
            (suc k, omega (arith, is, whole, suc-mul k rev), ge, inr (earlier before last))))
      (λ f. (0, omega arith, ground arith, inl refl))
  where
    earlier :
        {turn : ℕ}
        → nsecs < limit
        → (turn ≡ u32 (nsecs + rev)) ⊎ (turn < limit + rev)
        → turn < limit + rev
    earlier lt (inl same) = omega arith
    earlier lt (inr less) = less

carry_secs_lem :
    (fuel secs nsecs : ℕ)
    → nsecs < fuel * second
    → secs + fuel < 2 ^ 32
    → Returns
        (carry_secs fuel secs nsecs)
        (λ (s, n). (s * second + n ≡ secs * second + nsecs) × (n < second) × (s < 2 ^ 32))
unfolding carry_secs
carry_secs_lem zero secs nsecs lt small = absurd (omega arith)
carry_secs_lem (suc fuel) secs nsecs lt small =
    Returns-if (leb second nsecs) _ _ _
      (λ t.
        let more : second ≤ nsecs = ground arith in
        let whole : u32 (secs + 1) ≡ secs + 1 = omega arith in
        Returns-mono (carry_secs fuel (u32 (secs + 1)) (nsecs - second)) _ _
          (carry_secs_lem fuel (u32 (secs + 1)) (nsecs - second) (omega arith)
            (omega (arith, whole)))
          (λ (s, n) (same, below, word). (omega (arith, same, whole), below, word)))
      (λ f. (refl, ground arith, omega arith))

-- A sector and the one behind it lie within the turn.
turn_le : (rev n place : ℕ) → place < n → place * (rev / n) + rev / n ≤ rev
turn_le rev n place h =
    let within = mul-le-mul_right {m = suc place} {n = n} (rev / n) h in
    omega (arith, within, div-mul-le_self rev n, suc-mul place (rev / n))

-- No turn is later than one from the limit.
late_turn :
    (rev limit nsecs turn : ℕ)
    → nsecs ≤ rev
    → (turn ≡ nsecs) ⊎ (turn < limit + rev)
    → turn ≤ limit + rev
late_turn rev limit nsecs turn le (inl same) = omega (arith, le, same)
late_turn rev limit nsecs turn le (inr less) = omega (arith, less)

-- The wait until a time within the next four seconds.
wait_until_lem :
    (nowsecs nownsecs secs nsecs : ℕ)
    → nownsecs ≤ second
    → nsecs < second
    → nowsecs < 2 ^ 32
    → secs < 2 ^ 32
    → secs * second + nsecs < nowsecs * second + nownsecs + 2 ^ 32
    → wait_until (nowsecs, nownsecs) (secs, nsecs)
      ≡ secs * second + nsecs - (nowsecs * second + nownsecs)
wait_until_lem nowsecs nownsecs secs nsecs le below word word' near = ground arith

-- What is known of a track, and of the turn of the platter.
module _ (dd : Disk) (cyl n rotoffset : ℕ) (there : get_elem? dd.sectors cyl ≡ some n)
    (inside : rotoffset < n) (turning : 0 < dd.nsecs_per_rev)
    (slow : dd.nsecs_per_rev ≤ second) where
  abbrev rev : ℕ
  rev = dd.nsecs_per_rev

  abbrev per_sector : ℕ
  per_sector = rev / n

  sectors_of_lem : sectors_of dd cyl ≡ ok n
  unfolding sectors_of
  sectors_of_lem = rw (sectors_of, there) (ground (arith, inside))

  -- At a time within the second, a write takes until the next end of its sector: that is a number
  -- of whole turns later than the end of the sector in the first turn of the second, at least the
  -- time of one sector and at most that of one and a turn from now.
  pub disk_writerotdelay_lem :
      (nowsecs nownsecs : ℕ)
      → nownsecs ≤ second
      → Returns (disk_writerotdelay dd cyl rotoffset (nowsecs, nownsecs)) (λ delay.
        (k : ℕ) × (nownsecs + delay ≡ rotoffset * per_sector + per_sector + k * rev)
        × (per_sector ≤ delay)
        × (delay ≤ rev + per_sector))
  unfolding disk_writerotdelay
  disk_writerotdelay_lem nowsecs nownsecs le =
      let fits = turn_le rev n rotoffset inside in
      let whole : u32 (rotoffset * per_sector) ≡ rotoffset * per_sector =
        omega (arith, fits, slow) in
      rw (sectors_of_lem, whole)
        (Returns->>= (next_turn (nownsecs + 1) rev nownsecs (rotoffset * per_sector)) _
          (IsTurn rev nownsecs (rotoffset * per_sector)) _
          (next_turn_lem (nownsecs + 1) rev nownsecs (rotoffset * per_sector) turning slow le
            (omega arith))
          (λ turn (k, is, ge, last).
            let late = late_turn rev nownsecs _ turn (omega (arith, fits)) last in
            let end : u32 (turn + per_sector) ≡ turn + per_sector =
              omega (arith, late, le, slow, fits) in
            let delay : sub32 (turn + per_sector) nownsecs ≡ turn + per_sector - nownsecs =
              omega (arith, late, le, slow, fits, ge) in
            rw (end, delay) (k, omega (arith, is, ge), omega (arith, ge), omega (arith, late))))

  -- A time as a number of nanoseconds.
  abbrev pub total_nsecs : ℕ × ℕ → ℕ
  total_nsecs (secs, nsecs) = secs * second + nsecs

  -- For a disk that has arrived at its track, a read takes until the end of its sector passes the
  -- head for the first time since the arrival, and no time where that is past; at most one turn.
  pub disk_readrotdelay_lem :
      (now : ℕ × ℕ)
      → dd.arrival_nsecs ≤ second
      → now.1 ≤ second
      → now.0 < 2 ^ 32
      → dd.arrival_secs + 5 < 2 ^ 32
      → total_nsecs (dd.arrival_secs, dd.arrival_nsecs) ≤ total_nsecs now
      → Returns (disk_readrotdelay dd cyl rotoffset now) (λ delay.
        (turn : ℕ) × IsTurn rev dd.arrival_nsecs ((rotoffset + 1) % n * per_sector) turn
        × (delay ≡ total_nsecs (dd.arrival_secs, turn) - total_nsecs now)
        × (delay ≤ rev))
  unfolding disk_readrotdelay
  disk_readrotdelay_lem (nowsecs, nownsecs) le le' word early since =
      let place = (rotoffset + 1) % n in
      let fits = turn_le rev n place (mod-lt (rotoffset + 1) (omega (arith, inside))) in
      let whole : u32 (place * per_sector) ≡ place * per_sector = omega (arith, fits, slow) in
      rw (sectors_of_lem, whole)
        (Returns->>= (next_turn (dd.arrival_nsecs + 1) rev dd.arrival_nsecs (place * per_sector)) _
          (IsTurn rev dd.arrival_nsecs (place * per_sector)) _
          (next_turn_lem (dd.arrival_nsecs + 1) rev dd.arrival_nsecs (place * per_sector) turning
            slow le (omega arith))
          (λ turn is.
            let late = late_turn rev dd.arrival_nsecs _ turn (omega (arith, fits)) is.3 in
            Returns->>= (carry_secs 5 dd.arrival_secs turn) _ _ _
              (carry_secs_lem 5 dd.arrival_secs turn (omega (arith, late, le, slow)) early)
              (λ targ (same, below, word').
                let waits =
                  wait_until_lem nowsecs nownsecs targ.0 targ.1 le' below word word'
                    (omega (arith, same, late, since, slow)) in
                (turn, is, omega (arith, waits, same), omega (arith, waits, same, late, since)))))

  -- Without regard to the time since the arrival, it gives some delay.
  pub disk_readrotdelay-Returns :
      (now : ℕ × ℕ)
      → dd.arrival_nsecs ≤ second
      → dd.arrival_secs + 5 < 2 ^ 32
      → Returns (disk_readrotdelay dd cyl rotoffset now) (λ delay. Unit)
  unfolding disk_readrotdelay
  disk_readrotdelay-Returns now le early =
      let place = (rotoffset + 1) % n in
      let fits = turn_le rev n place (mod-lt (rotoffset + 1) (omega (arith, inside))) in
      let whole : u32 (place * per_sector) ≡ place * per_sector = omega (arith, fits, slow) in
      rw (sectors_of_lem, whole)
        (Returns->>= (next_turn (dd.arrival_nsecs + 1) rev dd.arrival_nsecs (place * per_sector)) _
          (IsTurn rev dd.arrival_nsecs (place * per_sector)) _
          (next_turn_lem (dd.arrival_nsecs + 1) rev dd.arrival_nsecs (place * per_sector) turning
            slow le (omega arith))
          (λ turn is.
            let late = late_turn rev dd.arrival_nsecs _ turn (omega (arith, fits)) is.3 in
            Returns->>= (carry_secs 5 dd.arrival_secs turn) _ _ _
              (carry_secs_lem 5 dd.arrival_secs turn (omega (arith, late, le, slow)) early)
              (λ targ h. tt)))
