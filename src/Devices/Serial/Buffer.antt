-- ===== src/Devices/Serial/Buffer.antt =====
-- The input buffer of the serial port as a queue of at most 511 characters.
use sys.Base.{
  ℕ, zero, suc, ◌+◌, ◌-◌, ◌%◌, ◌<◌, ◌≡◌, ◌≢◌, refl, ap, ap₂, List, [], ◌∷◌, ◌++◌, set, get_or,
  length, length-set, arith,
}
use sys.Devices.Serial.{Serial, inbuf_size, deliver, store_char}

module _ {A : Type 0} where
  get_or-set_self : (xs : List A) (i : ℕ) (v d : A) → i < length xs → get_or (set xs i v) i d ≡ v
  get_or-set_self [] i v d h = absurd (omega arith)
  get_or-set_self (x ∷ xs) zero v d h = refl
  get_or-set_self (x ∷ xs) (suc i) v d h = get_or-set_self xs i v d (omega arith)

  get_or-set_ne :
      (xs : List A) (i j : ℕ) (v d : A) → i ≢ j → get_or (set xs i v) j d ≡ get_or xs j d
  get_or-set_ne [] i j v d h = refl
  get_or-set_ne (x ∷ xs) zero zero v d h = absurd (h refl)
  get_or-set_ne (x ∷ xs) zero (suc j) v d h = refl
  get_or-set_ne (x ∷ xs) (suc i) zero v d h = refl
  get_or-set_ne (x ∷ xs) (suc i) (suc j) v d h = get_or-set_ne xs i j v d (λ e. h (ap suc e))

-- The `n` characters from index `i` on, going round at the end of the buffer.
abbrev pub chars_from : List ℕ → ℕ → ℕ → List ℕ
chars_from buf i zero = []
chars_from buf i (suc n) = get_or buf i 0 ∷ chars_from buf ((i + 1) % inbuf_size) n

-- How many characters are waiting, and which.
abbrev pub waiting : Serial → ℕ
waiting sd = (sd.inbuftail + inbuf_size - sd.inbufhead) % inbuf_size

abbrev pub contents : Serial → List ℕ
contents sd = chars_from sd.inbuf sd.inbufhead (waiting sd)

-- Both indices lie in the buffer, and while characters wait the input process is running.
pub record IsValid (sd : Serial) : Type 0 where
  pub size : length sd.inbuf ≡ inbuf_size
  pub head_in : sd.inbufhead < inbuf_size
  pub tail_in : sd.inbuftail < inbuf_size

-- Writing just behind the waiting characters extends them.
chars_from-set :
    (buf : List ℕ) (i n t v : ℕ)
    → length buf ≡ inbuf_size
    → i < inbuf_size
    → n < inbuf_size
    → t ≡ (i + n) % inbuf_size
    → chars_from (set buf t v) i (suc n) ≡ chars_from buf i n ++ (v ∷ [])
chars_from-set buf i zero t v size hi hn e =
    let e' : t ≡ i = omega arith in rw (e', get_or-set_self buf i v 0 (omega arith))
chars_from-set buf i (suc n) t v size hi hn e =
    ap₂ ◌∷◌ (get_or-set_ne buf t i v 0 (λ q. absurd (omega arith))) (
      chars_from-set buf ((i + 1) % inbuf_size) n t v size (omega arith) (omega arith)
        (omega arith))

-- Where the buffer has room, the character that comes in is put behind those that wait.
pub contents-store_char :
    (ch : ℕ) (sd : Serial)
    → IsValid sd
    → (sd.inbuftail + 1) % inbuf_size ≢ sd.inbufhead
    → contents (store_char ch sd) ≡ contents sd ++ (ch % 256 ∷ [])
unfolding store_char
contents-store_char ch sd v room =
    let more : waiting (store_char ch sd) ≡ suc (waiting sd) = omega arith in
    rw more (
      chars_from-set sd.inbuf sd.inbufhead (waiting sd) sd.inbuftail (ch % 256) v.size v.head_in
        (omega arith) (omega arith))

-- Delivering takes the first of the characters that wait.
pub contents-deliver :
    (sd : Serial)
    → IsValid sd
    → sd.inbufhead ≢ sd.inbuftail
    → contents sd ≡ (deliver sd).readch ∷ contents (deliver sd)
unfolding deliver
contents-deliver sd v ne =
    let fewer : waiting sd ≡ suc (waiting (deliver sd)) = omega (arith, v) in rw fewer

pub deliver-IsValid : (sd : Serial) → IsValid sd → IsValid (deliver sd)
unfolding deliver
deliver-IsValid sd v = ground arith

pub store_char-IsValid : (ch : ℕ) (sd : Serial) → IsValid sd → IsValid (store_char ch sd)
unfolding store_char
store_char-IsValid ch sd v = ground (arith, length-set sd.inbuf sd.inbuftail (ch % 256))
