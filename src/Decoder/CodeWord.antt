-- ===== src/Decoder/CodeWord.antt =====
-- The code word decoders of decmp.c, and the Golomb code.
use cmp_tool.Base.{
  ℕ, zero, suc, ◌+◌, ◌-◌, ◌*◌, ◌/◌, ◌%◌, ◌^◌, ◌≤◌, ◌<◌, ◌≡◌, refl, ap, ap₂, ◌∙◌, arith,
}
use cmp_tool.Base.{Bool, true, false, List, ◌∷◌, ◌++◌, lt→ltb, le→ltb, drop, replicate}
use cmp_tool.Base.{u32, sub32, shl32}
use cmp_tool.Base.Bits.{bits}
use cmp_tool.Golomb.{two_pow_mono, IsParam, IsCodable, log-le_15, cutoff_word, below_word}
use cmp_tool.Decoder.Reader.{
  BitDecoder, bit_peek_bits, bit_consume_bits, bit_read_bits, bit_read_bits32,
}
use cmp_tool.Decoder.Value.{unary_decoder, rice_decoder, golomb_decoder}
use cmp_tool.Decoder.Register.{
  remaining, advance, remaining-advance, peek-eq, peek-lt, peek_half, leading_ones-eq,
}
use native.Mathlib.Nat.{pow-suc, one-le-pow, mod-eq_of_lt}

pub consume-advance :
    (dec : BitDecoder) (n : ℕ)
    → dec.bits_consumed + n < 2 ^ 32
    → bit_consume_bits dec n ≡ advance dec n
unfolding bit_consume_bits
consume-advance dec n h = ap (λ (k : ℕ). record dec { bits_consumed = k }) (mod-eq_of_lt h)

pub advance-advance :
    (dec : BitDecoder) (a b k : ℕ) → a + b ≡ k → advance (advance dec a) b ≡ advance dec k
advance-advance dec a b k e = ap (λ (n : ℕ). record dec { bits_consumed = n }) (omega arith)

drop-unary : (q : ℕ) (l : List Bool) → drop (suc q) (replicate q true ++ (false ∷ l)) ≡ l
drop-unary zero l = refl
drop-unary (suc q) l = drop-unary q l

-- Unary digits: their number, and what follows.
module _ (mem : List ℕ) (dec : BitDecoder) (m L q : ℕ) (rest : List Bool)
    (loaded : dec.bits_consumed + suc q ≤ 64)
    (e : remaining mem dec ≡ replicate q true ++ (false ∷ rest)) where
  pub unary-reads : unary_decoder dec m L ≡ (q, advance dec (suc q))
  unfolding unary_decoder
  unary-reads =
      rw (leading_ones-eq mem dec q rest loaded e, consume-advance dec (q + 1) (omega arith))
        (ap (λ (n : ℕ). (q, advance dec n)) (omega arith))

  pub after_unary : remaining mem (advance dec (suc q)) ≡ rest
  after_unary = remaining-advance mem dec (suc q) loaded ∙ ap (drop (suc q)) e ∙ drop-unary q rest

-- A number of `n` digits.
pub bits-reads :
    (mem : List ℕ) (dec : BitDecoder) (n v : ℕ) (rest : List Bool)
    → 0 < n
    → n ≤ 32
    → dec.bits_consumed + n ≤ 64
    → v < 2 ^ n
    → remaining mem dec ≡ bits n v ++ rest
    → bit_read_bits32 dec n ≡ (u32 v, advance dec n)
unfolding bit_read_bits32 bit_read_bits
bits-reads mem dec n v rest pos h loaded hv e =
    rw (peek-eq mem dec n v rest pos loaded hv e, consume-advance dec n (omega arith)) refl

-- The parts of a value.
pub value_parts :
    {m L : ℕ} (value : ℕ)
    → IsParam m L
    → IsCodable m L value
    → (u32 (u32 (value / m * m) + value % m) ≡ value) × (value % m < m)
value_parts {m} {L} value p h =
    (omega (arith, below_word value p h), omega (arith, p.is_log, one-le-pow L 2 (omega arith)))

module _ (mem : List ℕ) (dec : BitDecoder) {m L : ℕ} (value : ℕ) (rest : List Bool)
    (p : IsParam m L) (h : IsCodable m L value) where
  abbrev q : ℕ
  q = value / m

  abbrev r : ℕ
  r = value % m

  word_size : u32 (L + 1) ≡ suc L
  word_size = omega (arith, log-le_15 p)

  peeked : (d : BitDecoder) → u32 (bit_peek_bits d (suc L)) ≡ bit_peek_bits d (suc L)
  peeked d = omega (
    arith,
    peek-lt mem d (suc L) (omega (arith, log-le_15 p)),
    two_pow_mono (suc L) 16 (omega (arith, log-le_15 p)),
  )

  -- A remainder below the cutoff.
  pub golomb-reads_low :
      0 < L
      → dec.bits_consumed + (q + suc L) ≤ 64
      → remaining mem dec ≡ replicate q true ++ (false ∷ (bits L r ++ rest))
      → r < 2 ^ suc L - m
      → golomb_decoder dec m L ≡ (value, advance dec (q + suc L))
  unfolding golomb_decoder
  golomb-reads_low pos loaded e low =
      rw
        (
          unary-reads mem dec m L q _ (omega arith) e,
          word_size,
          peeked (advance dec (suc q)),
          half,
          cutoff_word p,
          lt→ltb _ _ low,
          (value_parts value p h).0,
        )
        (ap (λ (d : BitDecoder). (value, d))
          (consume-advance (advance dec (suc q)) L (omega arith)
            ∙ advance-advance dec (suc q) L (q + suc L) (omega arith)))
    where
      half : bit_peek_bits (advance dec (suc q)) (suc L) / 2 ≡ r
      half =
          peek_half mem (advance dec (suc q)) L (omega (arith, log-le_15 p))
          ∙ peek-eq mem (advance dec (suc q)) L r rest pos (omega arith)
              (omega (arith, pow-suc 2 L, p.is_log)) (after_unary mem dec m L q _ (omega arith) e)

  -- A remainder at the cutoff or above.
  pub golomb-reads_high :
      dec.bits_consumed + (q + suc (suc L)) ≤ 64
      → remaining mem dec
        ≡ replicate q true ++ (false ∷ (bits (suc L) (r + (2 ^ suc L - m)) ++ rest))
      → 2 ^ suc L - m ≤ r
      → golomb_decoder dec m L ≡ (value, advance dec (q + suc (suc L)))
  unfolding golomb_decoder
  golomb-reads_high loaded e high =
      rw
        (
          unary-reads mem dec m L q _ (omega arith) e,
          word_size,
          peeked (advance dec (suc q)),
          whole,
          cutoff_word p,
          le→ltb _ _ above,
          back,
          (value_parts value p h).0,
        )
        (ap (λ (d : BitDecoder). (value, d))
          (consume-advance (advance dec (suc q)) (suc L) (omega arith)
            ∙ advance-advance dec (suc q) (suc L) (q + suc (suc L)) (omega arith)))
    where
      inside : r + (2 ^ suc L - m) < 2 ^ suc L
      inside = omega (arith, p.is_log, value_parts value p h)

      whole : bit_peek_bits (advance dec (suc q)) (suc L) ≡ r + (2 ^ suc L - m)
      whole =
          peek-eq mem (advance dec (suc q)) (suc L) (r + (2 ^ suc L - m)) rest (omega arith)
            (omega arith) inside (after_unary mem dec m L q _ (omega arith) e)

      above : 2 ^ suc L - m ≤ (r + (2 ^ suc L - m)) / 2
      above = omega (arith, high)

      back : sub32 (r + (2 ^ suc L - m)) (2 ^ suc L - m) ≡ r
      back = omega (arith, inside, two_pow_mono (suc L) 16 (omega (arith, log-le_15 p)))

  -- A power of two.
  pub rice-reads :
      m ≡ 2 ^ L
      → 0 < L
      → dec.bits_consumed + (q + suc L) ≤ 64
      → remaining mem dec ≡ replicate q true ++ (false ∷ (bits L r ++ rest))
      → rice_decoder dec m L ≡ (value, advance dec (q + suc L))
  unfolding rice_decoder
  rice-reads power pos loaded e =
      rw
        (
          unary-reads mem dec m L q _ (omega arith) e,
          bits-reads mem (advance dec (suc q)) L r rest pos (omega (arith, log-le_15 p))
              (omega arith) (omega (arith, power, value_parts value p h))
              (after_unary mem dec m L q _ (omega arith) e),
        )
        (ap₂ pair sum (advance-advance dec (suc q) L (q + suc L) (omega arith)))
    where
      pair : ℕ → BitDecoder → ℕ × BitDecoder
      pair v d = (v, d)

      sum : u32 (shl32 q L + u32 r) ≡ value
      sum =
          omega (
            arith,
            ap (λ (k : ℕ). q * k) power,
            value_parts value p h,
            p.small,
            below_word value p h,
          )
