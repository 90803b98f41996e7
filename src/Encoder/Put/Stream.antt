-- ===== src/Encoder/Put/Stream.antt =====
-- The buffer as one stream of digits, and a write as a splice of it.
use cmp_tool.Base.{ℕ, zero, suc, ◌+◌, ◌-◌, ◌*◌, ◌/◌, ◌%◌, ◌≤◌, ◌<◌, ◌≡◌, refl, sym, ap, ◌∙◌, arith}
use cmp_tool.Base.{Bool, false, List, [], ◌∷◌, ◌++◌, ltb, lt→ltb, le→ltb, if◌then◌else◌}
use cmp_tool.Base.{get_or, length, take, drop, length-append, length-take, length-drop, get_or_ext}
use cmp_tool.Base.{get_or-append_left, get_or-append_right, get_or-take, get_or-drop}
use cmp_tool.Base.{get_or-append, length-set, set, shr, sub32, bit_and}
use cmp_tool.Base.Bits.{bit, bits}
use cmp_tool.Base.Bits.Digit.{bit-zero}
use cmp_tool.Base.Bits.Digits.{length-bits, get_or-bits}
use cmp_tool.Encoder.Word.{put_words, put_first, put_second}
use cmp_tool.Encoder.Put.Digit.{put_words_digit}
use native.Mathlib.Decide.{dec_lt}

-- All digits of the buffer, in the order of a big-endian bitstream.
unfoldable pub stream : List ℕ → List Bool
stream [] = []
stream (w ∷ ws) = bits 32 w ++ stream ws

pub length-stream : (ws : List ℕ) → length (stream ws) ≡ 32 * length ws
unfolding stream
length-stream [] = refl
length-stream (w ∷ ws) =
    length-append (bits 32 w) (stream ws) ∙ omega (arith, length-bits 32 w, length-stream ws)

stream_digit :
    (ws : List ℕ) (k j : ℕ)
    → j < 32
    → get_or (stream ws) (32 * k + j) false ≡ bit (get_or ws k 0) (31 - j)
unfolding stream
stream_digit [] k j h = sym (bit-zero (31 - j))
stream_digit (w ∷ ws) zero j h =
    ap (λ (i : ℕ). get_or (bits 32 w ++ stream ws) i false) (start j)
    ∙ get_or-append_left (bits 32 w) (stream ws) j false (omega (arith, length-bits 32 w))
    ∙ get_or-bits 32 w j h
  where
    start : (y : ℕ) → 32 * 0 + y ≡ y
    start y = omega arith
stream_digit (w ∷ ws) (suc k) j h =
    get_or-append_right (bits 32 w) (stream ws) (32 * suc k + j) false
      (omega (arith, length-bits 32 w))
    ∙ ap (λ (i : ℕ). get_or (stream ws) i false) (omega (arith, length-bits 32 w))
    ∙ stream_digit ws k j h

digit_at :
    (ws : List ℕ) (p : ℕ) → get_or (stream ws) p false ≡ bit (get_or ws (p / 32) 0) (31 - p % 32)
digit_at ws p =
    ap (λ (i : ℕ). get_or (stream ws) i false) (whole p)
    ∙ stream_digit ws (p / 32) (p % 32) (omega arith)
  where
    whole : (y : ℕ) → y ≡ 32 * (y / 32) + y % 32
    whole y = omega arith

-- `l` in place of as many digits from place `o` on.
abbrev pub splice : ℕ → List Bool → List Bool → List Bool
splice o l s = take o s ++ (l ++ drop (o + length l) s)

length-splice :
    (o : ℕ) (l s : List Bool) → o + length l ≤ length s → length (splice o l s) ≡ length s
length-splice o l s h = omega (
  arith,
  length-append (take o s) (l ++ drop (o + length l) s),
  length-append l (drop (o + length l) s),
  length-take o s,
  length-drop (o + length l) s,
)

splice_digit :
    (o : ℕ) (l s : List Bool) (p : ℕ)
    → o ≤ length s
    → get_or (splice o l s) p false ≡ (
        if ltb p o
        then get_or s p false
        else if ltb p (o + length l)
        then get_or l (p - o) false
        else get_or s p false)
splice_digit o l s p h = elim (dec_lt p o) [
  | yes a ↦ rw (lt→ltb p o a) (
      get_or-append_left (take o s) _ p false (omega (arith, length-take o s))
      ∙ get_or-take o s p false a)
  | no a ↦ rw (le→ltb p o (omega arith)) (
      get_or-append_right (take o s) _ p false (omega (arith, length-take o s))
      ∙ ap (λ (i : ℕ). get_or (l ++ drop (o + length l) s) i false) {y = p - o}
          (omega (arith, length-take o s))
      ∙ elim (dec_lt p (o + length l)) [
        | yes b ↦
            rw (lt→ltb p (o + length l) b) (get_or-append_left l _ (p - o) false (omega arith))
        | no b ↦ rw (le→ltb p (o + length l) (omega arith)) (
            get_or-append_right l _ (p - o) false (omega arith)
            ∙ get_or-drop (o + length l) s (p - o - length l) false
            ∙ ap (λ (i : ℕ). get_or s i false) {y = p} (omega arith))
      ])
]

pub length-put_words : (v n o : ℕ) (ws : List ℕ) → length (put_words v n o ws) ≡ length ws
unfolding put_words
length-put_words v n o ws =
    ground (
      arith,
      length-set ws (shr o 5) first,
      length-set (set ws (shr o 5) first) (shr o 5 + 1) second,
    )
  where
    first : ℕ
    first = put_first (get_or ws (shr o 5) 0) v (sub32 32 n) (bit_and o 0x1f)

    second : ℕ
    second =
        put_second (get_or (set ws (shr o 5) first) (shr o 5 + 1) 0) v
          (sub32 (sub32 64 (bit_and o 0x1f)) n)

-- A write of `n` digits at `o` puts the `n` low digits of the value there.
pub stream-put_words :
    (v n o : ℕ) (ws : List ℕ)
    → 0 < n
    → n ≤ 32
    → o + n ≤ 32 * length ws
    → stream (put_words v n o ws) ≡ splice o (bits n v) (stream ws)
stream-put_words v n o ws pos hn fits =
    get_or_ext false (stream (put_words v n o ws)) (splice o (bits n v) (stream ws)) same_length
      same
  where
    inside : o + length (bits n v) ≤ length (stream ws)
    inside = omega (arith, length-bits n v, length-stream ws)

    same_length : length (stream (put_words v n o ws)) ≡ length (splice o (bits n v) (stream ws))
    same_length = omega (
      arith,
      length-stream (put_words v n o ws),
      length-put_words v n o ws,
      length-stream ws,
      length-splice o (bits n v) (stream ws) inside,
    )

    whole : (y : ℕ) → 32 * (y / 32) + y % 32 ≡ y
    whole y = omega arith

    place : (p : ℕ) → p < o + n → o ≤ p → n - 1 - (p - o) ≡ o + n - 1 - (32 * (p / 32) + p % 32)
    place p a b = omega arith

    same :
        (p : ℕ)
        → p < length (stream (put_words v n o ws))
        → get_or (stream (put_words v n o ws)) p false
          ≡ get_or (splice o (bits n v) (stream ws)) p false
    same p h =
        digit_at (put_words v n o ws) p
        ∙ put_words_digit v n o ws (p / 32) pos hn fits (p % 32) (omega arith)
        ∙ sym (
            splice_digit o (bits n v) (stream ws) p (omega (arith, inside))
            ∙ ground (
              arith,
              whole p,
              length-bits n v,
              digit_at ws p,
              get_or-bits n v (p - o),
              λ (a : p < o + n) (b : o ≤ p). ap (bit v) (place p a b),
            ))

-- Two writes one behind the other are one.
pub splice-splice :
    (o : ℕ) (l m s : List Bool)
    → o + length l + length m ≤ length s
    → splice (o + length l) m (splice o l s) ≡ splice o (l ++ m) s
splice-splice o l m s h =
    get_or_ext false (splice (o + length l) m (splice o l s)) (splice o (l ++ m) s) same_length same
  where
    within : o + length l ≤ length (splice o l s)
    within = omega (arith, length-splice o l s (omega arith))

    same_length : length (splice (o + length l) m (splice o l s)) ≡ length (splice o (l ++ m) s)
    same_length = omega (
      arith,
      length-append l m,
      length-splice o l s (omega arith),
      length-splice o (l ++ m) s (omega (arith, length-append l m)),
      length-splice (o + length l) m (splice o l s)
          (omega (arith, length-splice o l s (omega arith))),
    )

    shift : (p : ℕ) → p - (o + length l) ≡ p - o - length l
    shift p = omega arith

    same :
        (p : ℕ)
        → p < length (splice (o + length l) m (splice o l s))
        → get_or (splice (o + length l) m (splice o l s)) p false
          ≡ get_or (splice o (l ++ m) s) p false
    same p q = ground (
      arith,
      splice_digit (o + length l) m (splice o l s) p within,
      splice_digit o l s p,
      splice_digit o (l ++ m) s p,
      length-append l m,
      get_or-append l m (p - o) false,
      ap (λ (i : ℕ). get_or m i false) (shift p),
    )
