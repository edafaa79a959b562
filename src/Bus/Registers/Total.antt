-- ===== src/Bus/Registers/Total.antt =====
-- The stores to the controller's registers that return.
use sys.Base.{
  ℕ, ◌+◌, ◌-◌, ◌/◌, ◌%◌, ◌≤◌, ◌<◌, ◌^◌, ◌≡◌, inl, inr, Bool, true, some, Option-cases, get_elem?,
  get_elem?-in, length, ltb, leb, ◌==◌, ◌>>=◌, Returns, Returns-if, Returns->>=, arith,
}
use sys.Bus.State.{LamebusCpu, Bus, Port, nslots, config_size, controller_slot, cram_words}
use sys.Bus.Registers.{
  in_cram, cram_start, set_cram_word, store_cpu_register, controller_store_cpu, store_power,
  controller_store_config, controller_store,
}

module _ {W : Type 0} (port : Port W) where
  store_cpu_register-Returns :
      (region : ℕ) (cpu : LamebusCpu) (offset val : ℕ) (b : Bus) (w : W)
      → length cpu.cram ≡ cram_words
      → offset < cram_start + 128
      → Returns (store_cpu_register port region cpu offset val (b, w)) (λ r. Unit)
  unfolding store_cpu_register set_cram_word
  store_cpu_register-Returns region cpu offset val b w size fits =
      Returns-if (in_cram offset) _ _ _
        (λ inside.
          let (v, found) = get_elem?-in cpu.cram ((offset - cram_start) / 4) (ground arith) in
          rw (found, set_cram_word) tt)
        (λ outside. ground arith)

  store_power-Returns :
      (isold : Bool) (val : ℕ) (b : Bus) (w : W)
      → Returns (port.schedule_poweroff w) (λ r. Unit)
      → Returns (store_power port isold val (b, w)) (λ r. Unit)
  unfolding store_power
  store_power-Returns isold val b w back =
      Returns-if (val == 0) _ _ _
        (λ e. Returns->>= (port.schedule_poweroff w) _ _ _ back (λ w' u. tt)) (λ ne. ground arith)

  -- In the 64 KB of the controller's slot, a store returns, with success or with a bus error, where
  -- each cpu has its 128 bytes of scratch memory, the offset in a cpu's region is not in the half of
  -- the scratch range behind it, and the poweroff event can be scheduled.
  pub controller_store-Returns :
      (isold : Bool) (offset val : ℕ) (b : Bus) (w : W)
      → offset < 2 ^ 16
      → (32768 ≤ offset → (offset - 32768) % config_size < cram_start + 128)
      → ((i : ℕ) (cpu : LamebusCpu) → get_elem? b.cpus i ≡ some cpu → length cpu.cram ≡ cram_words)
      → Returns (port.schedule_poweroff w) (λ r. Unit)
      → Returns (controller_store port isold offset val (b, w)) (λ r. Unit)
  unfolding controller_store controller_store_cpu controller_store_config
  controller_store-Returns isold offset val b w inside fits sizes back =
      Returns-if (leb 32768 offset) _ _ _
        (λ high.
          Returns-if isold _ _ _ (λ old. tt)
            (λ new.
              let slot : ltb ((offset - 32768) / config_size) nslots ≡ true = ground arith in
              elim (Option-cases (get_elem? b.cpus ((offset - 32768) / config_size))) [
                | inl absent ↦ rw (slot, absent, ◌>>=◌) tt
                | inr (cpu, found) ↦
                    rw (slot, found, ◌>>=◌)
                      (store_cpu_register-Returns ((offset - 32768) / config_size) cpu
                        ((offset - 32768) % config_size) val b w
                        (sizes ((offset - 32768) / config_size) cpu found) (fits (ground arith)))
              ]))
        (λ low.
          let slot : ltb (offset / config_size) nslots ≡ true = ground arith in
          rw (slot, ◌>>=◌)
            (Returns-if (offset / config_size == controller_slot) _ _ _
              (λ own.
                Returns-if (offset % config_size == 0x208) _ _ _
                  (λ power.
                    Returns->>= (store_power port isold val (b, w)) _ _ _
                      (store_power-Returns isold val b w back) (λ s u. tt))
                  (λ other. ground arith))
              (λ foreign. tt)))
