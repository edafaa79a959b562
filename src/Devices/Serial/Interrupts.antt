-- ===== src/Devices/Serial/Interrupts.antt =====
-- The interrupt registers of the serial port and its line.
use sys.Base.{
  ℕ, ◌%◌, ◌<◌, ◌≡◌, refl, sym, ◌⊎◌, ◌↔◌, ap, ◌∙◌, true, false, Bool-cases, inl, inr, ◌||◌, ◌==◌,
  if◌then◌else◌, some, arith,
}
use sys.Base.Bits.{nonzero-bit}
use sys.Devices.Port.{DevicePort, DeviceLaws}
use sys.Devices.Serial.{
  Serial, SerIrq, wants, setirq, fetchirq, storeirq, serial_writedone, store_rirq, store_wirq,
  serial_fetch,
}

-- What a guest writes to an interrupt register is what it reads back, less the bits that mean
-- nothing.
fetchirq-storeirq : (val : ℕ) → fetchirq (storeirq val) ≡ val % 8
unfolding fetchirq storeirq
fetchirq-storeirq val = rw (nonzero-bit val 0, nonzero-bit val 1, nonzero-bit val 2) (ground arith)

-- A register asks for an interrupt: it is on, and it is ready or forced.
abbrev pub Asks : SerIrq → Type 0
Asks si = (si.is_on ≡ true) × ((si.is_ready ≡ true) ⊎ (si.is_forced ≡ true))

asking : (a b : SerIrq) → (wants a || wants b) ≡ true → Asks a ⊎ Asks b
asking a b e = ground (arith, e)

wanted : (a b : SerIrq) → Asks a ⊎ Asks b → (wants a || wants b) ≡ true
wanted a b (inl (on, inl h)) = ground (arith, on, h)
wanted a b (inl (on, inr h)) = ground (arith, on, h)
wanted a b (inr (on, inl h)) = ground (arith, on, h)
wanted a b (inr (on, inr h)) = ground (arith, on, h)

module _ {W : Type 0} (port : DevicePort W) (laws : DeviceLaws port) where
  -- After `setirq` the line of the slot is up exactly if one of the two registers asks for it, and
  -- the other lines are as they were.
  check_irq-setirq :
      (sd : Serial) (j : ℕ) (w : W)
      → sd.slot < 32
      → j < 32
      → port.check_irq j (setirq port sd w)
        ≡ (if sd.slot == j then wants sd.rirq || wants sd.wirq else port.check_irq j w)
  unfolding setirq
  check_irq-setirq sd j w hs hj = elim (Bool-cases (wants sd.rirq || wants sd.wirq)) [
    | inl t ↦ rw t (laws.check-raise sd.slot j w hs hj)
    | inr f ↦ rw f (laws.check-lower sd.slot j w hs hj)
  ]

  self_test : (n : ℕ) → (n == n) ≡ true
  self_test n = ground arith

  -- After `setirq` the line of the port's slot is up exactly if a register asks for it.
  asked :
      (sd : Serial) (w : W)
      → sd.slot < 32
      → (port.check_irq sd.slot (setirq port sd w) ≡ true) ↔ (Asks sd.rirq ⊎ Asks sd.wirq)
  asked sd w h =
      let e : port.check_irq sd.slot (setirq port sd w) ≡ wants sd.rirq || wants sd.wirq =
        check_irq-setirq sd sd.slot w h h ∙ rw (self_test sd.slot) refl in
      (λ up. asking sd.rirq sd.wirq (sym e ∙ up), λ a. e ∙ wanted sd.rirq sd.wirq a)

  -- For a serial port in one of the 32 slots, the end of an output, which sets the write register
  -- ready, and a write to the read or to the write interrupt register, which then reads as what was
  -- written modulo 8, leave the line of the slot up exactly if one of the registers is on and is
  -- ready or forced.
  pub serial_line :
      (sd : Serial) (w : W) (val : ℕ)
      → sd.slot < 32
      → let (done, w1) = serial_writedone port (sd, w) in
        let (read, w2) = store_rirq port val (sd, w) in
        let (write, w3) = store_wirq port val (sd, w) in
        ((((port.check_irq sd.slot w1 ≡ true) ↔ (Asks sd.rirq ⊎ Asks done.wirq))
            × (done.wirq ≡ record sd.wirq { is_ready = true }))
          × (((port.check_irq sd.slot w2 ≡ true) ↔ (Asks read.rirq ⊎ Asks sd.wirq))
              × ((serial_fetch port 0x8 (read, w2)).0 ≡ some (val % 8)))
          × (((port.check_irq sd.slot w3 ≡ true) ↔ (Asks sd.rirq ⊎ Asks write.wirq))
              × ((serial_fetch port 0x4 (write, w3)).0 ≡ some (val % 8))))
  unfolding serial_writedone store_rirq store_wirq serial_fetch
  serial_line sd w val hs = (
    (asked (record sd { wbusy = false; wirq = record sd.wirq { is_ready = true } }) w hs, refl),
    (asked (record sd { rirq = storeirq val }) w hs, ap some (fetchirq-storeirq val)),
    (asked (record sd { wirq = storeirq val }) w hs, ap some (fetchirq-storeirq val)),
  )
