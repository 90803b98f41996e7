-- ===== src/Decoder/Register.antt =====
-- The digits that a reader of read_bitstream.h has left, and the register operations.
use cmp_tool.Base.{
  ℕ, zero, suc, ◌+◌, ◌-◌, ◌*◌, ◌/◌, ◌%◌, ◌^◌, ◌≤◌, ◌<◌, ◌≡◌, refl, sym, ap, ◌∙◌, arith,
}
use cmp_tool.Base.{
  Bool, true, false, not, List, [], ◌∷◌, ◌++◌, ltb, lt→ltb, le→ltb, ◌==◌, if◌then◌else◌, length,
  drop, get_or, replicate,
}
use cmp_tool.Base.{
  shl64, not64, bit_and, length-drop, get_or-append_left, get_or-append_right, get_or-drop,
  drop-drop, length-replicate,
}
use cmp_tool.Base.Bits.{bit, bits}
use cmp_tool.Base.Bits.Digit.{bit-div, bit-mul, bit-mod, bit-complement, bit-zero}
use cmp_tool.Base.Bits.Digits.{length-bits, get_or-bits, bits_ext, bits_injective}
use cmp_tool.Base.Bits.Fields.{bit_and_mask}
use cmp_tool.Support.Log.{clz}
use cmp_tool.Decoder.Reader.{BitDecoder, bit_peek_bits, bit_peek_leading_ones}
use cmp_tool.Base.{Bool-cases, ==_iff, inl, inr}
use cmp_tool.Golomb.{pow-add}
use native.Mathlib.Nat.{pow-suc, div-div-eq-div-mul}

-- The digits of a byte buffer.
unfoldable pub byte_stream : List ℕ → List Bool
byte_stream [] = []
byte_stream (b ∷ bs) = bits 8 b ++ byte_stream bs

-- What is left in the register, and behind it in the buffer.
unfoldable pub remaining : List ℕ → BitDecoder → List Bool
remaining mem dec =
    drop dec.bits_consumed (bits 64 dec.bit_container) ++ byte_stream (drop (dec.cursor + 8) mem)

-- The reader after `n` more digits of the register.
abbrev pub advance : BitDecoder → ℕ → BitDecoder
advance dec n = record dec { bits_consumed = dec.bits_consumed + n }

pub drop-append_left {ℓ} :
    {A : Type ℓ} (n : ℕ) (xs ys : List A) → n ≤ length xs → drop n (xs ++ ys) ≡ drop n xs ++ ys
drop-append_left zero xs ys h = refl
drop-append_left (suc n) [] ys h = absurd (omega arith)
drop-append_left (suc n) (x ∷ xs) ys h = drop-append_left n xs ys (omega arith)

get_or-replicate : (q i : ℕ) → i < q → get_or (replicate q true) i false ≡ true
get_or-replicate zero i h = absurd (omega arith)
get_or-replicate (suc q) zero h = refl
get_or-replicate (suc q) (suc i) h = get_or-replicate q i (omega arith)

div_below : (v m k : ℕ) → v < k * m → v / m < k
div_below v m k h = grind arith

-- The number of leading zeros, from the digits.
clz-eq :
    (w x q : ℕ)
    → q < w
    → ((i : ℕ) → i < q → bit x (w - 1 - i) ≡ false)
    → bit x (w - 1 - q) ≡ true
    → clz w x ≡ q
unfolding clz
clz-eq zero x q h zeros one = absurd (omega arith)
clz-eq (suc w) x zero h zeros one = rw (ap (bit x) (top w) ∙ one)
  where
    top : (n : ℕ) → n ≡ suc n - 1 - 0
    top n = omega arith
clz-eq (suc w) x (suc q) h zeros one = rw (ap (bit x) (top w) ∙ zeros 0 (omega arith)) (
    ap suc (
      clz-eq w x q (omega arith) (λ i p. ap (bit x) (next w i) ∙ zeros (suc i) (omega arith))
        (ap (bit x) (next w q) ∙ one)))
  where
    top : (n : ℕ) → n ≡ suc n - 1 - 0
    top n = omega arith

    next : (n i : ℕ) → n - 1 - i ≡ suc n - 1 - suc i
    next n i = omega arith

module _ (mem : List ℕ) (dec : BitDecoder) where
  abbrev c : ℕ
  c = dec.bits_consumed

  length_left : length (drop c (bits 64 dec.bit_container)) ≡ 64 - c
  length_left =
      omega (arith, length-drop c (bits 64 dec.bit_container), length-bits 64 dec.bit_container)

  -- Consuming digits of the register drops them from what is left.
  pub remaining-advance :
      (n : ℕ) → c + n ≤ 64 → remaining mem (advance dec n) ≡ drop n (remaining mem dec)
  unfolding remaining
  remaining-advance n h =
      ap (λ (l : List Bool). l ++ byte_stream (drop (dec.cursor + 8) mem))
        (sym (drop-drop n c (bits 64 dec.bit_container)))
      ∙ sym (drop-append_left n (drop c (bits 64 dec.bit_container)) _ (omega (arith, length_left)))

  -- The digits of the register.
  pub remaining_digit :
      (i : ℕ) → c + i < 64 → get_or (remaining mem dec) i false ≡ bit dec.bit_container (63 - c - i)
  unfolding remaining
  remaining_digit i h =
      get_or-append_left _ _ i false (omega (arith, length_left))
      ∙ get_or-drop c (bits 64 dec.bit_container) i false
      ∙ get_or-bits 64 dec.bit_container (c + i) h
      ∙ ap (bit dec.bit_container) (omega arith)

  shifted_digit :
      (k : ℕ)
      → c < 64
      → k < 64
      → bit (shl64 dec.bit_container (bit_and c 0x3f)) k
        ≡ (if ltb k c then false else bit dec.bit_container (k - c))
  shifted_digit k h hk = rw (bit_and_mask 6 c ∙ in_range) (
      bit-mod 64 (dec.bit_container * 2 ^ c) k
      ∙ rw (lt→ltb k 64 hk) (bit-mul c dec.bit_container k))
    where
      in_range : c % 2 ^ 6 ≡ c
      in_range = omega arith

  pub peek-lt : (n : ℕ) → n ≤ 64 → bit_peek_bits dec n < 2 ^ n
  unfolding bit_peek_bits
  peek-lt n h =
      div_below _ (2 ^ (64 - n)) (2 ^ n)
        (omega (arith, ap (λ (k : ℕ). 2 ^ k) (total n h), pow-add n (64 - n)))
    where
      total : (k : ℕ) → k ≤ 64 → 64 ≡ k + (64 - k)
      total k p = omega arith

  -- A look at `n` digits shows the number that they form.
  pub peek-eq :
      (n v : ℕ) (rest : List Bool)
      → 0 < n
      → c + n ≤ 64
      → v < 2 ^ n
      → remaining mem dec ≡ bits n v ++ rest
      → bit_peek_bits dec n ≡ v
  unfolding bit_peek_bits
  peek-eq n v rest pos h hv e =
      bits_injective n (bit_peek_bits dec n) v (peek-lt n (omega arith)) hv
        (bits_ext n (bit_peek_bits dec n) v digit)
    where
      digit : (k : ℕ) → k < n → bit (bit_peek_bits dec n) k ≡ bit v k
      digit k hk =
          bit-div (64 - n) (shl64 dec.bit_container (bit_and c 0x3f)) k
          ∙ shifted_digit (k + (64 - n)) (omega arith) (omega arith)
          ∙ rw (le→ltb (k + (64 - n)) c (omega arith)) (ap (bit dec.bit_container) (omega arith))
          ∙ sym (remaining_digit (n - 1 - k) (omega arith))
          ∙ ap (λ (l : List Bool). get_or l (n - 1 - k) false) e
          ∙ get_or-append_left (bits n v) rest (n - 1 - k) false (omega (arith, length-bits n v))
          ∙ get_or-bits n v (n - 1 - k) (omega arith)
          ∙ ap (bit v) (omega arith)

  -- A look at one digit less.
  pub peek_half : (n : ℕ) → n < 64 → bit_peek_bits dec (suc n) / 2 ≡ bit_peek_bits dec n
  unfolding bit_peek_bits
  peek_half n h =
      div-div-eq-div-mul _ (2 ^ (64 - suc n)) 2
      ∙ ap (λ (k : ℕ). shl64 dec.bit_container (bit_and c 0x3f) / k)
          (sym (pow-suc 2 (64 - suc n)) ∙ ap (λ (k : ℕ). 2 ^ k) (back n h))
    where
      back : (k : ℕ) → k < 64 → suc (64 - suc k) ≡ 64 - k
      back k p = omega arith

  -- When the digits left start with q ones and a zero that are all in the register,
  -- bit_peek_leading_ones returns q.
  pub leading_ones-eq :
      (q : ℕ) (rest : List Bool)
      → c + suc q ≤ 64
      → remaining mem dec ≡ replicate q true ++ (false ∷ rest)
      → bit_peek_leading_ones dec ≡ q
  unfolding bit_peek_leading_ones
  leading_ones-eq q rest h e = rw nonzero (clz-eq 64 flip q (omega arith) ones stop)
    where
      flip : ℕ
      flip = not64 (shl64 dec.bit_container (bit_and c 0x3f))

      -- Digit `i` from the left.
      flipped : (i : ℕ) → i ≤ q → bit flip (64 - 1 - i) ≡ not (get_or (remaining mem dec) i false)
      flipped i p =
          bit-complement 64 (shl64 dec.bit_container (bit_and c 0x3f)) (64 - 1 - i) (omega arith)
          ∙ rw (lt→ltb (64 - 1 - i) 64 (omega arith)) (
              ap not (
                shifted_digit (64 - 1 - i) (omega arith) (omega arith)
                ∙ rw (le→ltb (64 - 1 - i) c (omega arith))
                    (ap (bit dec.bit_container) (omega arith))
                ∙ sym (remaining_digit i (omega arith))))

      ones : (i : ℕ) → i < q → bit flip (64 - 1 - i) ≡ false
      ones i p =
          flipped i (omega arith)
          ∙ ap not (
              ap (λ (l : List Bool). get_or l i false) e
              ∙ get_or-append_left (replicate q true) _ i false
                  (omega (arith, length-replicate q true))
              ∙ get_or-replicate q i p)

      stop : bit flip (64 - 1 - q) ≡ true
      stop =
          flipped q (omega arith)
          ∙ ap not (
              ap (λ (l : List Bool). get_or l q false) e
              ∙ get_or-append_right (replicate q true) (false ∷ rest) q false
                  (omega (arith, length-replicate q true))
              ∙ ap (λ (k : ℕ). get_or (false ∷ rest) k false) {y = 0}
                  (omega (arith, length-replicate q true)))

      nonzero : (flip == 0) ≡ false
      nonzero = elim (Bool-cases (flip == 0)) [
        | inl z ↦
            cc (
              ap (λ (n : ℕ). bit n (64 - 1 - q)) ((==_iff flip 0).0 z),
              bit-zero (64 - 1 - q),
              stop,
            )
        | inr n ↦ n
      ]
