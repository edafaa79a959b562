-- ===== src/Devices/Serial/Input.antt =====
-- The input side of the serial port: characters come in by `serial_input`, and
-- `serial_pushinput`, called by events, hands them to the guest one by one.
use sys.Base.{
  ℕ, suc, ◌+◌, ◌%◌, ◌<◌, ◌≡◌, ◌≢◌, refl, sym, ◌∙◌, inl, inr, Bool, true, false, Bool-cases, List,
  [], ◌∷◌, ◌++◌, not, ◌&&◌, ◌||◌, ◌⊎◌, ◌==◌, Returns, Returns-mono, Returns->>=, Returns-if, arith,
}
use sys.Devices.Port.{Event, DevicePort}
use sys.Devices.Serial.{
  Serial, inbuf_size, serial_nsecs, wants, setirq, deliver, serial_pushinput, store_char,
  serial_input,
}
use sys.Devices.Serial.Buffer.{
  waiting, contents, IsValid, contents-store_char, contents-deliver, deliver-IsValid,
  store_char-IsValid,
}

busy-IsValid : (sd : Serial) → IsValid sd → IsValid (record sd { rbusy = true })
busy-IsValid sd v = record { size = v.size; head_in = v.head_in; tail_in = v.tail_in }

-- How many events of a serial port are pending that call `serial_pushinput`: scheduling one adds
-- one where the event queue has room, and moving a line adds none.
pub record InputEvents {W : Type 0} (port : DevicePort W) (slot : ℕ) : Type 0 where
  pub pending : W → ℕ
  pub room : W → Bool
  pub schedules :
      (nsecs code : ℕ) (w : W)
      → room w ≡ true
      → Returns
          (port.schedule_event nsecs code (Event.serial_pushinput slot) w)
          (λ w'. pending w' ≡ suc (pending w))
  pub raising :
      (w : W)
      → (pending (port.raise_irq slot w) ≡ pending w) × (room (port.raise_irq slot w) ≡ room w)
  pub lowering :
      (w : W)
      → (pending (port.lower_irq slot w) ≡ pending w) × (room (port.lower_irq slot w) ≡ room w)

module _ {W : Type 0} (port : DevicePort W) (slot : ℕ) (events : InputEvents port slot) where
  open events use {pending, room}

  -- The input never stalls: while characters wait, or the port counts as busy, an event is pending
  -- that will look at them.
  abbrev pub NoStall : Serial × W → Type 0
  NoStall (sd, w) =
      (sd.rbusy ≡ true → 0 < pending w) × (sd.inbufhead ≢ sd.inbuftail → 0 < pending w)

  -- What one look at the buffer does to the port: nothing waits; or the character before has not
  -- been read, and everything stays; or the first character is delivered, and announced.
  abbrev pub Pushed : Serial → Serial → Type 0
  Pushed sd sd' =
      ((contents sd ≡ []) × (sd'.readch ≡ sd.readch) × (contents sd' ≡ []))
      ⊎ ((sd.didread ≡ false)
          × (sd.rirq.is_ready ≡ true)
          × (sd'.readch ≡ sd.readch)
          × (contents sd' ≡ contents sd))
      ⊎ ((contents sd ≡ sd'.readch ∷ contents sd')
          × (sd'.didread ≡ false)
          × (sd'.rirq.is_ready ≡ true))

  pending-setirq :
      (sd : Serial) (w : W)
      → sd.slot ≡ slot
      → (pending (setirq port sd w) ≡ pending w) × (room (setirq port sd w) ≡ room w)
  unfolding setirq
  pending-setirq sd w e =
      let up : (pending (port.raise_irq sd.slot w) ≡ pending w)
          × (room (port.raise_irq sd.slot w) ≡ room w) =
        rw e (events.raising w) in
      let down : (pending (port.lower_irq sd.slot w) ≡ pending w)
          × (room (port.lower_irq sd.slot w) ≡ room w) =
        rw e (events.lowering w) in
      elim (Bool-cases (wants sd.rirq || wants sd.wirq)) [ inl t ↦ rw t up | inr f ↦ rw f down ]

  scheduled :
      (at' : ℕ) (w : W)
      → at' ≡ slot
      → room w ≡ true
      → Returns
          (port.schedule_event serial_nsecs 0 (Event.serial_pushinput at') w)
          (λ w'. pending w' ≡ suc (pending w))
  scheduled at' w e r = rw e (events.schedules serial_nsecs 0 w r)

  -- With room in the event queue `serial_pushinput` returns, keeps the buffer valid, loses and repeats no character, and leaves
  -- an event pending if characters wait.
  serial_pushinput_lem :
      (sd : Serial) (w : W)
      → sd.slot ≡ slot
      → IsValid sd
      → room w ≡ true
      → Returns
          (serial_pushinput port (sd, w))
          (λ s. IsValid s.0 × (s.0.slot ≡ slot) × NoStall s × Pushed sd s.0)
  unfolding serial_pushinput deliver
  serial_pushinput_lem sd w at v has = elim (Bool-cases (sd.inbufhead == sd.inbuftail)) [
    | inl empty ↦ rw empty (
        let nothing : waiting sd ≡ 0 = ground (arith, v) in
        (
          record { size = v.size; head_in = v.head_in; tail_in = v.tail_in },
          at,
          (λ busy. cc, λ ne. absurd (ground arith)),
          inl (rw nothing refl, refl, rw nothing refl),
        ))
    | inr full ↦ elim (Bool-cases (not sd.didread && sd.rirq.is_ready)) [
      | inl held ↦
          rw (full, held)
            (Returns->>= (port.schedule_event serial_nsecs 0 (Event.serial_pushinput sd.slot) w) _ _
              _ (scheduled sd.slot w at has)
              (λ w' more. (
                record { size = v.size; head_in = v.head_in; tail_in = v.tail_in },
                at,
                (λ busy. omega arith, λ ne. omega arith),
                inr (inl (ground arith, ground arith, refl, refl)),
              )))
      | inr free ↦
          rw (full, free)
            (Returns->>=
              (port.schedule_event serial_nsecs 0 (Event.serial_pushinput (deliver sd).slot)
                (setirq port (deliver sd) w))
              _ _ _
              (scheduled (deliver sd).slot (setirq port (deliver sd) w) at
                ((pending-setirq (deliver sd) w at).1 ∙ has))
              (λ w' more. (
                busy-IsValid (deliver sd) (deliver-IsValid sd v),
                at,
                (λ busy. omega arith, λ ne. omega arith),
                inr (inr (contents-deliver sd v (ground arith), refl, refl)),
              )))
    ]
  ]

  append-ne-nil : (xs : List ℕ) (x : ℕ) → xs ++ (x ∷ []) ≢ []
  append-ne-nil [] x e = cc
  append-ne-nil (y ∷ xs) x e = cc

  -- The look at the buffer that follows an insertion does not find it empty.
  Pushed-input :
      (ch : ℕ) (sd sd' sd'' : Serial)
      → contents sd' ≡ contents sd ++ (ch % 256 ∷ [])
      → sd'.readch ≡ sd.readch
      → Pushed sd' sd''
      → ((waiting sd ≡ 511) × (sd'' ≡ sd))
        ⊎ ((contents sd'' ≡ contents sd ++ (ch % 256 ∷ [])) × (sd''.readch ≡ sd.readch))
        ⊎ (sd''.readch ∷ contents sd'' ≡ contents sd ++ (ch % 256 ∷ []))
  Pushed-input ch sd sd' sd'' queued same (inl nothing) =
      absurd (append-ne-nil (contents sd) (ch % 256) (sym queued ∙ nothing.0))
  Pushed-input ch sd sd' sd'' queued same (inr (inl held)) =
      inr (inl (held.3 ∙ queued, held.2 ∙ same))
  Pushed-input ch sd sd' sd'' queued same (inr (inr taken)) = inr (inr (sym taken.0 ∙ queued))

  -- With room in the event queue `serial_input` returns, keeps the buffer valid and the input from stalling, and the character
  -- typed is dropped where 511 wait, or put behind those that wait; or it is put there and the
  -- first of them is delivered at once.
  pub serial_input_lem :
      (ch : ℕ) (sd : Serial) (w : W)
      → sd.slot ≡ slot
      → IsValid sd
      → NoStall (sd, w)
      → room w ≡ true
      → Returns (serial_input port ch (sd, w)) (λ s.
        IsValid s.0
        × (s.0.slot ≡ slot)
        × NoStall s
        × (((waiting sd ≡ 511) × (s.0 ≡ sd))
            ⊎ ((contents s.0 ≡ contents sd ++ (ch % 256 ∷ [])) × (s.0.readch ≡ sd.readch))
            ⊎ (s.0.readch ∷ contents s.0 ≡ contents sd ++ (ch % 256 ∷ []))))
  unfolding serial_input store_char
  serial_input_lem ch sd w at v live has =
      let sd' = store_char ch sd in
      let v' = store_char-IsValid ch sd v in
      Returns-if ((sd.inbuftail + 1) % inbuf_size == sd.inbufhead) _ _ _
        (λ full. (v, at, live, inl (ground (arith, v), refl)))
        (λ room.
          let queued = contents-store_char ch sd v (ground arith) in
          Returns-if sd.rbusy _ _ _
            (λ busy. (v', at, (λ b. live.0 busy, λ ne. live.0 busy), inr (inl (queued, refl))))
            (λ idle.
              Returns-mono (serial_pushinput port (sd', w)) _ _
                (serial_pushinput_lem sd' w at v' has)
                (λ s r. (r.0, r.1, r.2, Pushed-input ch sd sd' s.0 queued refl r.3))))

  -- While a character is unread and the port does not count as busy, and the buffer and the event
  -- queue have room, each character typed schedules
  -- one more event, and the port still does not count as busy: the events pile up.
  pub serial_input_piles_up :
      (ch : ℕ) (sd : Serial) (w : W)
      → sd.slot ≡ slot
      → IsValid sd
      → sd.rbusy ≡ false
      → sd.didread ≡ false
      → sd.rirq.is_ready ≡ true
      → waiting sd < 511
      → room w ≡ true
      → Returns (serial_input port ch (sd, w)) (λ (sd', w').
        (pending w' ≡ suc (pending w))
        × (sd'.rbusy ≡ false)
        × (sd'.didread ≡ false)
        × (sd'.rirq.is_ready ≡ true)
        × (waiting sd' ≡ suc (waiting sd)))
  unfolding serial_input serial_pushinput store_char
  serial_input_piles_up ch sd w at v idle unread ready below has =
      let fits : (sd.inbuftail + 1) % inbuf_size == sd.inbufhead ≡ false = ground (arith, v) in
      let more : sd.inbufhead == (sd.inbuftail + 1) % inbuf_size ≡ false = ground (arith, v) in
      rw (fits, idle, more, unread, ready)
        (Returns->>= (port.schedule_event serial_nsecs 0 (Event.serial_pushinput sd.slot) w) _ _ _
          (scheduled sd.slot w at has) (λ w' one. (one, refl, refl, refl, omega (arith, v))))
