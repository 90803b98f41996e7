-- ===== src/Encoder/Put/Digit.antt =====
-- The words that `put_n_bits32` writes, digit by digit.
use cmp_tool.Base.{ℕ, ◌+◌, ◌-◌, ◌*◌, ◌/◌, ◌%◌, ◌^◌, ◌≤◌, ◌<◌, ◌≡◌, ap, ◌∙◌, arith}
use cmp_tool.Base.{Bool, false, ◌&&◌, List, ltb, leb, if◌then◌else◌}
use cmp_tool.Base.{length, length-set, get_or-set_self, get_or-set_ne, ◌==◌, le→ltb, lt→ltb}
use native.Mathlib.Decide.{dec_lt, ℕ_discrete}
use cmp_tool.Base.{bit_and, shr, shl32, not32, sub32, get_or, set}
use cmp_tool.Base.Bits.{bit}
use cmp_tool.Base.Bits.Digit.{
  bit-div, bit-mul, bit-mod, bit-complement, bit-bit_and, bit-bit_or, bit-zero,
}
use cmp_tool.Base.Bits.Fields.{bit_and_mask}
use cmp_tool.Encoder.Word.{put_first, put_second, put_words}

bit-ones : (k : ℕ) → bit 0xffff_ffff k ≡ ltb k 32
bit-ones k = bit-complement 32 0 k (omega arith) ∙ ground (arith, bit-zero k)

-- `(x << l) >> r`
bit-shl-shr :
    (x l r k : ℕ)
    → bit (shr (shl32 x l) r) k
      ≡ (ltb (k + r) 32 && (if ltb (k + r) l then false else bit x (k + r - l)))
bit-shl-shr x l r k =
    bit-div r (x * 2 ^ l % 2 ^ 32) k
    ∙ bit-mod 32 (x * 2 ^ l) (k + r)
    ∙ ap (λ (b : Bool). ltb (k + r) 32 && b) (bit-mul l x (k + r))

bit-shl : (x l k : ℕ) → bit (shl32 x l) k ≡ (ltb k 32 && (if ltb k l then false else bit x (k - l)))
bit-shl x l k = bit-mod 32 (x * 2 ^ l) k ∙ ap (λ (b : Bool). ltb k 32 && b) (bit-mul l x k)

shr-lt : (x r : ℕ) → x < 2 ^ 32 → shr x r < 2 ^ 32
shr-lt x r h = grind arith

shl32-lt : (x l : ℕ) → shl32 x l < 2 ^ 32
shl32-lt x l = omega arith

-- The field of the first word, and what lies beside it.
pub bit-put_first :
    (w v l r k : ℕ)
    → k < 32
    → bit (put_first w v l r) k
      ≡ (if leb l (k + r) && ltb (k + r) 32 then bit v (k + r - l) else bit w k)
unfolding put_first
bit-put_first w v l r k h =
    bit-bit_or (bit_and w (not32 (shr (shl32 0xffff_ffff l) r))) (shr (shl32 v l) r) k
    ∙ ground (
      arith,
      bit-bit_and w (not32 (shr (shl32 0xffff_ffff l) r)) k,
      bit-complement 32 (shr (shl32 0xffff_ffff l) r) k (shr-lt _ r (shl32-lt 0xffff_ffff l)),
      bit-shl-shr 0xffff_ffff l r k,
      bit-shl-shr v l r k,
      bit-ones (k + r - l),
    )

pub bit-put_second :
    (w v l k : ℕ) → k < 32 → bit (put_second w v l) k ≡ (if leb l k then bit v (k - l) else bit w k)
unfolding put_second
bit-put_second w v l k h =
    bit-bit_or (bit_and w (not32 (shl32 0xffff_ffff l))) (shl32 v l) k
    ∙ ground (
      arith,
      bit-bit_and w (not32 (shl32 0xffff_ffff l)) k,
      bit-complement 32 (shl32 0xffff_ffff l) k (shl32-lt 0xffff_ffff l),
      bit-shl 0xffff_ffff l k,
      bit-shl v l k,
      bit-ones (k - l),
    )

-- `bits_left`, the index of the first word, `shift_left` and `bits_right`, without the wraps.
module _ (n o : ℕ) (small : n ≤ 32) where
  left : bit_and o 0x1f ≡ o % 32
  left = bit_and_mask 5 o

  up : sub32 32 n ≡ 32 - n
  up = omega arith

  right : sub32 (sub32 64 (o % 32)) n ≡ 64 - o % 32 - n
  right = omega arith

put_plain : ℕ → ℕ → ℕ → List ℕ → List ℕ
put_plain v n o ws =
    let first = set ws (o / 32) (put_first (get_or ws (o / 32) 0) v (32 - n) (o % 32)) in
    if ltb (64 - o % 32 - n) 32
    then set first (o / 32 + 1) (put_second (get_or first (o / 32 + 1) 0) v (64 - o % 32 - n))
    else first

put_words-eq-put_plain :
    (v n o : ℕ) (ws : List ℕ) → n ≤ 32 → put_words v n o ws ≡ put_plain v n o ws
unfolding put_words put_plain
put_words-eq-put_plain v n o ws h = rw (left n o h, up n o h, right n o h)

abbrev put_digit : ℕ → ℕ → ℕ → List ℕ → ℕ → ℕ → Bool
put_digit v n o ws k j =
    if leb o (32 * k + j) && ltb (32 * k + j) (o + n)
    then bit v (o + n - 1 - (32 * k + j))
    else bit (get_or ws k 0) (31 - j)

abbrev set_digit : ℕ → ℕ → ℕ → ℕ → ℕ → ℕ → ℕ → Bool
set_digit v n o w k j place =
    if leb o (32 * k + j) && ltb (32 * k + j) (o + n) then bit v place else bit w (31 - j)

-- The two words that change, and the others.
first_digit :
    (v n o w k j : ℕ)
    → n ≤ 32
    → j < 32
    → k ≡ o / 32
    → bit (put_first w v (32 - n) (o % 32)) (31 - j)
      ≡ set_digit v n o w k j (o + n - 1 - (32 * k + j))
first_digit v n o w k j hn hj e =
    ground (arith, bit-put_first w v (32 - n) (o % 32) (31 - j), place)
  where
    place :
        32 * k + j < o + n → bit v (31 - j + o % 32 - (32 - n)) ≡ bit v (o + n - 1 - (32 * k + j))
    place h = ap (bit v) (omega arith)

second_digit :
    (v n o w k j : ℕ)
    → n ≤ 32
    → j < 32
    → k ≡ o / 32 + 1
    → 32 < o % 32 + n
    → bit (put_second w v (64 - o % 32 - n)) (31 - j)
      ≡ set_digit v n o w k j (o + n - 1 - (32 * k + j))
second_digit v n o w k j hn hj e split =
    ground (arith, bit-put_second w v (64 - o % 32 - n) (31 - j), place)
  where
    place :
        32 * k + j < o + n → bit v (31 - j - (64 - o % 32 - n)) ≡ bit v (o + n - 1 - (32 * k + j))
    place h = ap (bit v) (omega arith)

get_or-set :
    (xs : List ℕ) (i j v : ℕ)
    → i < length xs
    → get_or (set xs i v) j 0 ≡ (if i == j then v else get_or xs j 0)
get_or-set xs i j v h = elim (ℕ_discrete i j) [
  | yes e ↦ ground (arith, get_or-set_self xs i v 0 h)
  | no ne ↦ ground (arith, get_or-set_ne xs i j v 0 ne)
]

module _ (v n o : ℕ) (ws : List ℕ) (k : ℕ) (pos : 0 < n) (hn : n ≤ 32)
    (fits : o + n ≤ 32 * length ws) where
  abbrev first : List ℕ
  first = set ws (o / 32) (put_first (get_or ws (o / 32) 0) v (32 - n) (o % 32))

  in_first : o / 32 < length ws
  in_first = omega arith

  -- Word `k` after the write.
  word_in_one :
      o % 32 + n ≤ 32
      → get_or (put_plain v n o ws) k 0
        ≡ (if o / 32 == k then put_first (get_or ws k 0) v (32 - n) (o % 32) else get_or ws k 0)
  unfolding put_plain
  word_in_one h = rw (le→ltb (64 - o % 32 - n) 32 (omega arith)) (
      ground (
        arith,
        get_or-set ws (o / 32) k (put_first (get_or ws (o / 32) 0) v (32 - n) (o % 32)) in_first,
      ))

  word_in_two :
      32 < o % 32 + n
      → get_or (put_plain v n o ws) k 0 ≡ (
          if o / 32 + 1 == k
          then put_second (get_or ws k 0) v (64 - o % 32 - n)
          else if o / 32 == k
          then put_first (get_or ws k 0) v (32 - n) (o % 32)
          else get_or ws k 0)
  unfolding put_plain
  word_in_two h = rw (lt→ltb (64 - o % 32 - n) 32 (omega arith)) (
      ground (
        arith,
        get_or-set first (o / 32 + 1) k
            (put_second (get_or first (o / 32 + 1) 0) v (64 - o % 32 - n))
            (omega (
              arith,
              length-set ws (o / 32) (put_first (get_or ws (o / 32) 0) v (32 - n) (o % 32)),
            )),
        get_or-set ws (o / 32) k (put_first (get_or ws (o / 32) 0) v (32 - n) (o % 32)) in_first,
        get_or-set ws (o / 32) (o / 32 + 1) (put_first (get_or ws (o / 32) 0) v (32 - n) (o % 32))
            in_first,
      ))

  -- Digit `j` of word `k` after a write of `n` digits at `o`.
  pub put_words_digit :
      (j : ℕ) → j < 32 → bit (get_or (put_words v n o ws) k 0) (31 - j) ≡ put_digit v n o ws k j
  put_words_digit j hj = rw (put_words-eq-put_plain v n o ws hn) (elim (dec_lt 32 (o % 32 + n)) [
    | yes two ↦ rw (word_in_two two) (
        ground (
          arith,
          first_digit v n o (get_or ws k 0) k j hn hj,
          second_digit v n o (get_or ws k 0) k j hn hj,
        ))
    | no one ↦
        rw (word_in_one (omega arith)) (ground (arith, first_digit v n o (get_or ws k 0) k j hn hj))
  ])
