-- ===== src/Bus/Cpue/RoundTrip.antt =====
-- What the CPUE register reads after it is written.
use sys.Base.{
  ℕ, zero, suc, ◌+◌, ◌<◌, ◌^◌, ◌≡◌, refl, ◌∙◌, Bool, true, false, ◌&&◌, List, [], ◌∷◌, bit_and,
  bit_or, to_int, if◌then◌else◌, min, arith,
}
use Prim.Native.Nat.{max}
use sys.Base.Bits.{bit, bit-lt, bit-zero, nonzero, nonzero-bit, bit-bit_or, bit-pow}
use sys.Bus.State.{LamebusCpu, Bus, Port}
use sys.Bus.Cpue.{get_cpue_from, get_cpue, set_cpue_cpu, set_cpue_from, set_cpue}

-- The `cpu_enabled` flag of a cpu, false where there is no such cpu.
abbrev pub enabled_at : List LamebusCpu → ℕ → Bool
enabled_at [] j = false
enabled_at (cpu ∷ rest) zero = cpu.enabled
enabled_at (cpu ∷ rest) (suc j) = enabled_at rest j

-- Bits below the current cpu are settled.
get_cpue_from_below :
    (k j : ℕ) (cpus : List LamebusCpu) (ret : ℕ)
    → j < k
    → bit (get_cpue_from k cpus ret) j ≡ bit ret j
unfolding get_cpue_from
get_cpue_from_below k j [] ret h = refl
get_cpue_from_below k j (cpu ∷ rest) ret h =
    get_cpue_from_below (k + 1) j rest (if cpu.enabled then bit_or ret (2 ^ k) else ret)
      (omega arith)
    ∙ ground (arith, bit-bit_or ret (2 ^ k) j, bit-pow k j)

get_cpue_from_at :
    (k j n : ℕ) (cpus : List LamebusCpu) (ret : ℕ)
    → n ≡ k + j
    → bit (get_cpue_from k cpus ret) n ≡ max (bit ret n) (to_int (enabled_at cpus j))
unfolding get_cpue_from
get_cpue_from_at k j n [] ret e = omega arith
get_cpue_from_at k zero n (cpu ∷ rest) ret e =
    get_cpue_from_below (k + 1) n rest (if cpu.enabled then bit_or ret (2 ^ k) else ret)
      (omega arith)
    ∙ ground (arith, bit-bit_or ret (2 ^ k) n, bit-pow k n, bit-lt ret n)
get_cpue_from_at k (suc j) n (cpu ∷ rest) ret e =
    get_cpue_from_at (k + 1) j n rest (if cpu.enabled then bit_or ret (2 ^ k) else ret)
      (omega arith)
    ∙ ground (arith, bit-bit_or ret (2 ^ k) n, bit-pow k n)

-- The register holds the flags of the cpus, and 0 above the last of them.
get_cpue-bit : (b : Bus) (j : ℕ) → bit (get_cpue b) j ≡ to_int (enabled_at b.cpus j)
unfolding get_cpue
get_cpue-bit b j = ground (arith, get_cpue_from_at 0 j j b.cpus 0 (omega arith), bit-zero j)

module _ {W : Type 0} (port : Port W) where
  set_cpue_from-enabled :
      (val k j n : ℕ) (cpus : List LamebusCpu) (w : W)
      → n ≡ k + j
      → enabled_at (set_cpue_from port val k cpus w).0 j
        ≡ (enabled_at cpus j && nonzero (bit_and val (2 ^ n)))
  unfolding set_cpue_from
  set_cpue_from-enabled val k j n [] w e = refl
  set_cpue_from-enabled val k zero n (cpu ∷ rest) w e =
      let here : n ≡ k = omega arith in rw here (ground arith)
  set_cpue_from-enabled val k (suc j) n (cpu ∷ rest) w e =
      set_cpue_from-enabled val (k + 1) j n rest (set_cpue_cpu port val k cpu w).1 (omega arith)

  -- After a write of CPUE, a cpu reads as on exactly if it did so before the write and its bit is
  -- set in the value: a cpu that this write turns on reads as off.
  pub get_cpue-set_cpue :
      (val j : ℕ) (b : Bus) (w : W)
      → bit (get_cpue (set_cpue port val (b, w)).0) j ≡ min (bit (get_cpue b) j) (bit val j)
  unfolding set_cpue
  get_cpue-set_cpue val j b w =
      rw
        (
          get_cpue-bit,
          get_cpue-bit,
          set_cpue_from-enabled val 0 j j b.cpus w (omega arith),
          nonzero-bit,
        )
        (ground (arith, bit-lt val j))

  -- Each flagged cpu from number `k` on has its bit in the value; exactly the flagged ones have.
  abbrev pub Keeps : ℕ → ℕ → List LamebusCpu → Type 0
  Keeps val k [] = Unit
  Keeps val k (cpu ∷ rest) =
      (cpu.enabled ≡ true → nonzero (bit_and val (2 ^ k)) ≡ true) × Keeps val (k + 1) rest

  abbrev pub Exact : ℕ → ℕ → List LamebusCpu → Type 0
  Exact val k [] = Unit
  Exact val k (cpu ∷ rest) = (nonzero (bit_and val (2 ^ k)) ≡ cpu.enabled) × Exact val (k + 1) rest

  set_cpue_from-Keeps :
      (val k : ℕ) (cpus : List LamebusCpu) (w : W)
      → Keeps val k cpus
      → (set_cpue_from port val k cpus w).0 ≡ cpus
  unfolding set_cpue_from
  set_cpue_from-Keeps val k [] w h = refl
  set_cpue_from-Keeps val k (cpu ∷ rest) w h =
      let same : (set_cpue_cpu port val k cpu w).0 ≡ cpu = ground arith in
      rw (same, set_cpue_from-Keeps val (k + 1) rest (set_cpue_cpu port val k cpu w).1 h.1)

  set_cpue_from-Exact :
      (val k : ℕ) (cpus : List LamebusCpu) (w : W)
      → Exact val k cpus
      → set_cpue_from port val k cpus w ≡ (cpus, w)
  unfolding set_cpue_from
  set_cpue_from-Exact val k [] w h = refl
  set_cpue_from-Exact val k (cpu ∷ rest) w h =
      let same : set_cpue_cpu port val k cpu w ≡ (cpu, w) = ground arith in
      rw (same, set_cpue_from-Exact val (k + 1) rest w h.1)

  -- Whatever cpus a write of CPUE turned on besides those flagged as on, a following write of
  -- exactly the flagged ones does nothing: it turns none of the others off.
  set_cpue_never_off :
      (val low : ℕ) (b : Bus) (w : W)
      → Keeps val 0 b.cpus
      → Exact low 0 b.cpus
      → set_cpue port low (set_cpue port val (b, w)) ≡ set_cpue port val (b, w)
  unfolding set_cpue
  set_cpue_never_off val low b w keeps exact =
      let w' = (set_cpue_from port val 0 b.cpus w).1 in
      rw (set_cpue_from-Keeps val 0 b.cpus w keeps, set_cpue_from-Exact low 0 b.cpus w' exact)
