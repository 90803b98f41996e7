-- ===== src/RoundTrip/Mapping.antt =====
-- `re_map_to_pos` of decmp.c against `map_to_pos` of cmp_icu.c.
use cmp_tool.Base.{
  ℕ, zero, suc, ◌+◌, ◌-◌, ◌*◌, ◌/◌, ◌%◌, ◌^◌, ◌≤◌, ◌<◌, ◌≡◌, sym, ap, ◌∙◌, arith, subst,
}
use cmp_tool.Base.{ltb, lt→ltb, le→ltb, if◌then◌else◌}
use cmp_tool.Base.{u32, sub32, bit_and}
use cmp_tool.Base.Bits.Fields.{bit_and_mask}
use cmp_tool.Golomb.{two_pow_mono, pow-add}
use cmp_tool.Encoder.Value.{map_to_pos}
use cmp_tool.Encoder.Mapping.{mapped, map_to_pos-mapped, split_word}
use cmp_tool.Decoder.Value.{re_map_to_pos}
use native.Mathlib.Nat.{
  pow-suc, one-le-pow, mod-mod_of_dvd, dvd-mul_left, mod-add-mod, add-mul-mod_self_right,
  mod-eq_of_lt, mod-lt,
}
use Prim.Native.Nat.{◌∣◌}
use native.Mathlib.Decide.{dec_lt}

even_odd : (n : ℕ) → (n * 2 % 2 ≡ 0) × (n * 2 / 2 ≡ n)
even_odd n = omega arith

-- An even number is halved, an odd one is negated too.
re_map-even : (n : ℕ) → re_map_to_pos (n * 2) ≡ n
unfolding re_map_to_pos
re_map-even n = rw (bit_and_mask 1 (n * 2)) (ground arith)

re_map-odd : (n : ℕ) → 0 < n → n ≤ 2 ^ 31 → re_map_to_pos (n * 2 - 1) ≡ 2 ^ 32 - n
unfolding re_map_to_pos
re_map-odd n p h = rw (bit_and_mask 1 (n * 2 - 1)) (ground arith)

-- The number that is mapped comes back, as a two's complement number of 32 bits.
re_map_to_pos-mapped :
    (c x : ℕ)
    → suc c ≤ 32
    → x < 2 ^ suc c
    → re_map_to_pos (mapped c x) ≡ (if ltb x (2 ^ c) then x else 2 ^ 32 - (2 ^ suc c - x))
re_map_to_pos-mapped c x h hx = elim (dec_lt x (2 ^ c)) [
  | yes l ↦ rw (lt→ltb x (2 ^ c) l) (re_map-even x)
  | no g ↦ rw (le→ltb x (2 ^ c) (omega arith)) (
      re_map-odd (2 ^ suc c - x) (omega arith)
        (omega (arith, pow-suc 2 c, two_pow_mono (suc c) 32 h)))
]

-- The word size is a multiple of the range of `n` digits.
pub mod-word : (n y : ℕ) → n ≤ 32 → y % 2 ^ 32 % 2 ^ n ≡ y % 2 ^ n
mod-word n y h =
    mod-mod_of_dvd (2 ^ n) y
      (subst (λ k. 2 ^ n ∣ k) (sym split) (dvd-mul_left (2 ^ n) (2 ^ (32 - n))))
  where
    total : (k : ℕ) → k ≤ 32 → 32 ≡ 32 - k + k
    total k p = omega arith

    split : 2 ^ 32 ≡ 2 ^ (32 - n) * 2 ^ n
    split = ap (λ (k : ℕ). 2 ^ k) (total n h) ∙ pow-add (32 - n) n

-- The range of `suc c` data bits.
module _ (c : ℕ) (h : suc c ≤ 32) where
  abbrev range : ℕ
  range = 2 ^ suc c

  re_map_to_pos-mod : (x : ℕ) → x < range → re_map_to_pos (mapped c x) % range ≡ x
  re_map_to_pos-mod x hx = rw (re_map_to_pos-mapped c x h hx) (elim (dec_lt x (2 ^ c)) [
    | yes l ↦ rw (lt→ltb x (2 ^ c) l) (mod-eq_of_lt hx)
    | no g ↦ rw (le→ltb x (2 ^ c) (omega arith)) (
        ap (λ (y : ℕ). y % range)
          (wraps (2 ^ (31 - c)) (split_word c h) (one-le-pow (31 - c) 2 (omega arith)))
        ∙ add-mul-mod_self_right x (2 ^ (31 - c) - 1) range
        ∙ mod-eq_of_lt hx)
  ])
    where
      times : (a p : ℕ) → 0 < a → a * p ≡ (a - 1) * p + p
      times zero p z = absurd (omega arith)
      times (suc a) p z = rw (minus a) (omega arith)
        where
          minus : (n : ℕ) → suc n - 1 ≡ n
          minus n = omega arith

      wraps : (a : ℕ) → 2 ^ 32 ≡ a * range → 0 < a → 2 ^ 32 - (range - x) ≡ x + (a - 1) * range
      wraps a e z = omega (arith, e, times a range z)

  -- For 1 to 32 data bits and two values in their range, adding the subtrahend to the unmapped
  -- mapped difference gives the minuend back in the data bits.
  pub re_map_to_pos-restores :
      (input model : ℕ)
      → input < range
      → model < range
      → bit_and
          (u32 (re_map_to_pos (map_to_pos (sub32 input model) (suc c)) + model))
          (2 ^ suc c - 1)
        ≡ input
  re_map_to_pos-restores input model hi hm =
      bit_and_mask (suc c) _
      ∙ mod-word (suc c) _ h
      ∙ sym (mod-add-mod _ range model)
      ∙ ap (λ (y : ℕ). (y + model) % range)
          (ap (λ (y : ℕ). re_map_to_pos y % range) (map_to_pos-mapped (sub32 input model) c h)
            ∙ re_map_to_pos-mod (sub32 input model % range)
                (mod-lt (sub32 input model) {m = range} (one-le-pow (suc c) 2 (omega arith))))
      ∙ ap (λ (y : ℕ). (y + model) % range) (mod-word (suc c) (input + 2 ^ 32 - model) h)
      ∙ mod-add-mod (input + 2 ^ 32 - model) range model
      ∙ ap (λ (y : ℕ). y % range) total
      ∙ add-mul-mod_self_right input (2 ^ (31 - c)) range
      ∙ mod-eq_of_lt hi
    where
      total : input + 2 ^ 32 - model + model ≡ input + 2 ^ (31 - c) * range
      total = omega (arith, split_word c h, two_pow_mono (suc c) 32 h)
