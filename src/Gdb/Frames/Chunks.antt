-- ===== src/Gdb/Frames/Chunks.antt =====
-- The stream of packets, received in pieces.
use sys.Base.{
  ℕ, zero, suc, ◌+◌, ◌-◌, ◌≤◌, ◌<◌, ◌≡◌, refl, sym, ◌∙◌, ap, ap₂, true, false, Bool-cases, inl, inr,
  List, [], ◌∷◌, ◌++◌, Option, none, some, length, length-append, length-drop, length-take, Returns,
  Returns->>=, take, drop, ltb, leb, ◌==◌, if◌then◌else◌, Outcome, ok, smoke, undefined,
  out_of_fuel, ◌>>=◌, arith,
}
use mathlib.Core.List.{append_assoc}
use sys.Gdb.Text.{buflen}
use sys.Gdb.Frames.{complete, starting, memchr, next_packet, packets_from, gdb_receive}

take-append_le : (n : ℕ) (l m : List ℕ) → n ≤ length l → take n (l ++ m) ≡ take n l
take-append_le zero l m h = refl
take-append_le (suc n) [] m h = absurd (omega (arith, h))
take-append_le (suc n) (x ∷ l) m h = ap (λ t. x ∷ t) (take-append_le n l m (omega (arith, h)))

drop-append_le : (n : ℕ) (l m : List ℕ) → n ≤ length l → drop n (l ++ m) ≡ drop n l ++ m
drop-append_le zero l m h = refl
drop-append_le (suc n) [] m h = absurd (omega (arith, h))
drop-append_le (suc n) (x ∷ l) m h = drop-append_le n l m (omega (arith, h))

-- What is found, with more behind it.
abbrev with_more : List ℕ → Option (List ℕ) → Option (List ℕ)
with_more m none = none
with_more m (some t) = some (t ++ m)

memchr-append : (c : ℕ) (l m t : List ℕ) → memchr c l ≡ some t → memchr c (l ++ m) ≡ some (t ++ m)
unfolding memchr
memchr-append c [] m t e = absurd (cc)
memchr-append c (x ∷ l) m t e = elim (Bool-cases (x == c)) [
  | inl y ↦ let e' : some (x ∷ l) ≡ some t = rw y at e in rw y (ap (with_more m) e')
  | inr n ↦ let e' : memchr c l ≡ some t = rw n at e in rw n (memchr-append c l m t e')
]

memchr-le : (c : ℕ) (l t : List ℕ) → memchr c l ≡ some t → length t ≤ length l
unfolding memchr
memchr-le c [] t e = absurd (cc)
memchr-le c (x ∷ l) t e = ground (arith, e, memchr-le c l t)

-- A packet that is complete stays what it is when more comes, and it is not empty.
abbrev Stays : List ℕ → List ℕ → List ℕ → List ℕ → Option (List ℕ × List ℕ) → ℕ → Type 0
Stays m l p r more size = (more ≡ some (p, r ++ m)) × (length r < size) × (length p ≤ size)

complete-append :
    (packet hash m p r : List ℕ)
    → length hash ≤ length packet
    → 0 < length hash
    → complete packet (some hash) ≡ some (p, r)
    → Stays m packet p r (complete (packet ++ m) (some (hash ++ m))) (length packet)
unfolding complete
complete-append packet hash m p r le some_hash e =
    elim (Bool-cases (ltb (length packet) packetlen)) [
      | inl t ↦ absurd (wrong (rw t at e))
      | inr f ↦ stays f (rw f at e)
    ]
  where
    packetlen : ℕ
    packetlen = length packet - length hash + 3

    wrong : ◌≡◌ {A = Option (List ℕ × List ℕ)} none (some (p, r)) → ⊥
    wrong e' = cc

    stays :
        ltb (length packet) packetlen ≡ false
        → ◌≡◌ {A = Option (List ℕ × List ℕ)}
            (some (take packetlen packet, drop packetlen packet))
            (some (p, r))
        → Stays m packet p r
            (if ltb (length (packet ++ m)) (length (packet ++ m) - length (hash ++ m) + 3)
              then none
              else some (
                take (length (packet ++ m) - length (hash ++ m) + 3) (packet ++ m),
                drop (length (packet ++ m) - length (hash ++ m) + 3) (packet ++ m),
              ))
            (length packet)
    stays f e' =
        let fits : packetlen ≤ length packet = ground (arith, f) in
        let same : length (packet ++ m) - length (hash ++ m) + 3 ≡ packetlen =
          omega (arith, length-append packet m, length-append hash m, le) in
        let long : ltb (length (packet ++ m)) packetlen ≡ false =
          ground (arith, fits, length-append packet m) in
        let is : r ≡ drop packetlen packet = cc in
        let first : p ≡ take packetlen packet = cc in
        (
          rw
              (
                same,
                long,
                take-append_le packetlen packet m fits,
                drop-append_le packetlen packet m fits,
                is,
                first,
              )
              refl,
          omega (arith, ap length is, length-drop packetlen packet, fits),
          omega (arith, ap length first, length-take packetlen packet),
        )

memchr-pos : (c : ℕ) (l t : List ℕ) → memchr c l ≡ some t → 0 < length t
unfolding memchr
memchr-pos c [] t e = absurd (cc)
memchr-pos c (x ∷ l) t e = ground (arith, e, memchr-pos c l t)

next_packet-append :
    (l m p r : List ℕ)
    → next_packet l ≡ some (p, r)
    → Stays m l p r (next_packet (l ++ m)) (length l)
unfolding next_packet starting complete
next_packet-append l m p r e = found (memchr b'$' l) refl e
  where
    ended :
        (t : List ℕ)
        → memchr b'$' l ≡ some t
        → (o : Option (List ℕ)) → memchr b'#' t ≡ o
        → complete t o ≡ some (p, r)
        → Stays m l p r (starting (memchr b'$' (l ++ m))) (length l)
    ended t at none gone e' = absurd (cc)
    ended t at (some h) there e' =
        let (stays, shorter, part) =
          complete-append t h m p r (memchr-le b'#' t h there) (memchr-pos b'#' t h there) e' in
        (
          rw (memchr-append b'$' l m t at) (rw (memchr-append b'#' t m h there) stays),
          omega (arith, shorter, memchr-le b'$' l t at),
          omega (arith, part, memchr-le b'$' l t at),
        )

    found :
        (o : Option (List ℕ))
        → memchr b'$' l ≡ o
        → starting o ≡ some (p, r)
        → Stays m l p r (starting (memchr b'$' (l ++ m))) (length l)
    found none gone e' = absurd (cc)
    found (some t) at e' = ended t at (memchr b'#' t) refl e'

bind_same :
    {A B : Type 0} (m : Outcome A) (k k' : A → Outcome B)
    → ((a : A) → k a ≡ k' a)
    → (m >>= k) ≡ (m >>= k')
bind_same (ok a) k k' h = h a
bind_same smoke k k' h = refl
bind_same undefined k k' h = refl
bind_same out_of_fuel k k' h = refl

-- Where a call returns, it can be gone on from.
bind_ok :
    {A B D : Type 0} (m : Outcome A) (k : A → Outcome B) (k' : A → Outcome D) (v : B)
    (t : Outcome D)
    → (m >>= k) ≡ ok v
    → ((a : A) → k a ≡ ok v → k' a ≡ t)
    → (m >>= k') ≡ t
bind_ok (ok a) k k' v t e h = h a e
bind_ok smoke k k' v t e h = absurd (cc)
bind_ok undefined k k' v t e h = absurd (cc)
bind_ok out_of_fuel k k' v t e h = absurd (cc)

module _ {S : Type 0} (debug_exec : List ℕ → S → Outcome S) where
  -- What a round does with what `next_packet` finds.
  abbrev round : ℕ → List ℕ → S → Option (List ℕ × List ℕ) → Outcome (List ℕ × S)
  round fuel buf s none = ok (buf, s)
  round fuel buf s (some (p, r)) =
      if leb (buflen + 1) (length p + 1)
      then smoke
      else (debug_exec p s >>= λ s'. packets_from debug_exec fuel r s')

  packets_from-round :
      (fuel : ℕ) (buf : List ℕ) (s : S)
      → packets_from debug_exec (suc fuel) buf s ≡ round fuel buf s (next_packet buf)
  unfolding packets_from
  packets_from-round fuel buf s =
      elim (next_packet buf)
        as (λ o.
          ◌≡◌ {A = Outcome (List ℕ × S)}
            (elim o [
              | none ↦ ok (buf, s)
              | some (packet, rest) ↦
                  if leb (buflen + 1) (length packet + 1)
                  then smoke
                  else (debug_exec packet s >>= λ s'. packets_from debug_exec fuel rest s')
            ])
            (round fuel buf s o)) [ none ↦ refl | some (p, r) ↦ refl ]

  -- Fuel beyond the length of the buffer makes no difference.
  fuel_same :
      (f g : ℕ) (l : List ℕ) (s : S)
      → length l < f
      → length l < g
      → packets_from debug_exec f l s ≡ packets_from debug_exec g l s
  fuel_same zero g l s hf hg = absurd (omega (arith, hf))
  fuel_same (suc f) zero l s hf hg = absurd (omega (arith, hg))
  fuel_same (suc f) (suc g) l s hf hg =
      packets_from-round f l s
      ∙ rounds (next_packet l) refl
          (λ r s' h. fuel_same f g r s' (omega (arith, h, hf)) (omega (arith, h, hg)))
      ∙ sym (packets_from-round g l s)
    where
      rounds :
          (o : Option (List ℕ × List ℕ))
          → next_packet l ≡ o
          → ((r : List ℕ) (s' : S)
              → length r < length l
              → packets_from debug_exec f r s' ≡ packets_from debug_exec g r s')
          → round f l s o ≡ round g l s o
      rounds none e ih = refl
      rounds (some (p, r)) e ih =
          let shorter = (next_packet-append l [] p r e).1 in
          ap (λ (k : Outcome (List ℕ × S)). if leb (buflen + 1) (length p + 1) then smoke else k)
            (bind_same (debug_exec p s) _ _ (λ s'. ih r s' shorter))

  -- With more behind it, a buffer gives what it gave, and then what its rest gives with more.
  more_behind :
      (f F F' : ℕ) (l m : List ℕ) (s : S) (l1 : List ℕ) (s1 : S)
      → packets_from debug_exec f l s ≡ ok (l1, s1)
      → length l + length m < F
      → length l1 + length m < F'
      → packets_from debug_exec F (l ++ m) s ≡ packets_from debug_exec F' (l1 ++ m) s1
  unfolding packets_from
  more_behind zero F F' l m s l1 s1 e hF hF' = absurd (cc)
  more_behind (suc f) zero F' l m s l1 s1 e hF hF' = absurd (omega (arith, hF))
  more_behind (suc f) (suc F) F' l m s l1 s1 e hF hF' =
      rounds (next_packet l) refl (sym (packets_from-round f l s) ∙ e)
        (λ r s' e' h. more_behind f F F' r m s' l1 s1 e' (omega (arith, h, hF)) hF')
    where
      rounds :
          (o : Option (List ℕ × List ℕ))
          → next_packet l ≡ o
          → round f l s o ≡ ok (l1, s1)
          → ((r : List ℕ) (s' : S)
              → packets_from debug_exec f r s' ≡ ok (l1, s1)
              → length r < length l
              → packets_from debug_exec F (r ++ m) s' ≡ packets_from debug_exec F' (l1 ++ m) s1)
          → packets_from debug_exec (suc F) (l ++ m) s ≡ packets_from debug_exec F' (l1 ++ m) s1
      rounds none at e' ih =
          let is : l ≡ l1 = cc in
          let at_s : s ≡ s1 = cc in
          fuel_same (suc F) F' (l ++ m) s (omega (arith, hF, length-append l m))
            (omega (arith, hF', ap length is, length-append l m))
          ∙ ap₂ (λ x y. packets_from debug_exec F' (x ++ m) y) is at_s
      rounds (some (p, r)) at e' ih =
          let (stays, shorter, part) = next_packet-append l m p r at in
          packets_from-round F (l ++ m) s
          ∙ rw stays (
              elim (leb (buflen + 1) (length p + 1))
                  as (λ b.
                    (if b then smoke else (debug_exec p s >>= λ s'. packets_from debug_exec f r s'))
                      ≡ ok (l1, s1)
                    → (if b
                        then smoke
                        else (debug_exec p s >>= λ s'. packets_from debug_exec F (r ++ m) s'))
                      ≡ packets_from debug_exec F' (l1 ++ m) s1) [
                        | true ↦ λ wrong. absurd (cc)
                        | false ↦ λ e''.
                            bind_ok (debug_exec p s) _ _ (l1, s1) _ e''
                              (λ s' got. ih r s' got shorter)
                      ]
                e')

  -- What is received in two pieces has the effect of what is received at once: where the first
  -- piece is handled without a fault, and neither finds the input buffer full.
  pub gdb_receive-append :
      (buf a b : List ℕ) (s : S) (buf1 : List ℕ) (s1 : S)
      → length buf < buflen
      → length buf1 < buflen
      → gdb_receive debug_exec buf a s ≡ ok (buf1, s1)
      → gdb_receive debug_exec buf (a ++ b) s ≡ gdb_receive debug_exec buf1 b s1
  unfolding gdb_receive
  gdb_receive-append buf a b s buf1 s1 small small1 e =
      let room : leb buflen (length buf) ≡ false = ground (arith, small) in
      let room1 : leb buflen (length buf1) ≡ false = ground (arith, small1) in
      let first : packets_from debug_exec (length (buf ++ a) + 1) (buf ++ a) s ≡ ok (buf1, s1) =
        rw room at e in
      rw (room, room1, sym (append_assoc buf a b))
        (more_behind (length (buf ++ a) + 1) (length ((buf ++ a) ++ b) + 1) (length (buf1 ++ b) + 1)
          (buf ++ a) b s buf1 s1 first (omega (arith, length-append (buf ++ a) b))
          (omega (arith, length-append buf1 b)))

  -- What is left in the buffer has no packet that is complete.
  abbrev pub IsRest : List ℕ × S → Type 0
  IsRest (rest, s) = next_packet rest ≡ none

  packets_from-Returns :
      ((p : List ℕ) (s : S) → Returns (debug_exec p s) (λ s'. Unit))
      → (f : ℕ) (l : List ℕ) (s : S) → length l < f
      → length l < buflen
      → Returns (packets_from debug_exec f l s) IsRest
  packets_from-Returns runs zero l s enough small = absurd (omega (arith, enough))
  packets_from-Returns runs (suc f) l s enough small = rw (packets_from-round f l s) (
      rounds (next_packet l) refl (λ r s' h.
        packets_from-Returns runs f r s' (omega (arith, h, enough)) (omega (arith, h, small))))
    where
      rounds :
          (o : Option (List ℕ × List ℕ))
          → next_packet l ≡ o
          → ((r : List ℕ) (s' : S)
              → length r < length l
              → Returns (packets_from debug_exec f r s') IsRest)
          → Returns (round f l s o) IsRest
      rounds none at ih = at
      rounds (some (p, r)) at ih =
          let (stays, shorter, part) = next_packet-append l [] p r at in
          let fits : leb (buflen + 1) (length p + 1) ≡ false = ground (arith, part, small) in
          rw fits (
            Returns->>= (debug_exec p s) _ (λ s'. Unit) IsRest (runs p s) (λ s' h. ih r s' shorter))

  -- Where every packet is handled without a fault, and the bytes do not fill the input buffer,
  -- `gdb_receive` returns, and has left no complete packet in the buffer.
  gdb_receive-Returns :
      (buf bytes : List ℕ) (s : S)
      → ((p : List ℕ) (s' : S) → Returns (debug_exec p s') (λ s''. Unit))
      → length buf + length bytes < buflen
      → Returns (gdb_receive debug_exec buf bytes s) IsRest
  unfolding gdb_receive
  gdb_receive-Returns buf bytes s runs small =
      let room : leb buflen (length buf) ≡ false = ground (arith, small) in
      rw room (
        packets_from-Returns runs (length (buf ++ bytes) + 1) (buf ++ bytes) s (omega arith)
          (omega (arith, small, length-append buf bytes)))
