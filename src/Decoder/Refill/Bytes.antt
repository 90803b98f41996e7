-- ===== src/Decoder/Refill/Bytes.antt =====
-- The digits of bytes that are read as one big-endian number.
use cmp_tool.Base.{ℕ, zero, suc, ◌+◌, ◌*◌, ◌^◌, ◌≤◌, ◌<◌, ◌≡◌, refl, sym, ap, ap₂, ◌∙◌, arith}
use cmp_tool.Base.{Bool, List, [], ◌∷◌, ◌++◌, length, drop, get_or, All}
use cmp_tool.Base.{length-append, drop-drop, drop-append, drop-nil}
use cmp_tool.Base.Bits.{bits}
use cmp_tool.Base.Bits.Digits.{length-bits, bits_fields}
use cmp_tool.Decoder.Reader.{read_be}
use cmp_tool.Decoder.Register.{byte_stream}
use mathlib.Core.List.{append_assoc}
use cmp_tool.Golomb.{pow-add}
use native.Mathlib.Nat.{mul-le-mul_right}

-- Bytes are numbers below 256.
abbrev pub IsBytes : List ℕ → Type 0
IsBytes mem = All (λ b. b < 256) mem

byte-lt : (mem : List ℕ) (at : ℕ) → IsBytes mem → get_or mem at 0 < 256
byte-lt [] at h = omega arith
byte-lt (b ∷ mem) zero h = h.0
byte-lt (b ∷ mem) (suc at) h = byte-lt mem at h.1

pub eight_more : (n : ℕ) → 2 ^ (8 * suc n) ≡ 256 * 2 ^ (8 * n)
eight_more n = ap (λ (k : ℕ). 2 ^ k) (shift n) ∙ pow-add 8 (8 * n)
  where
    shift : (k : ℕ) → 8 * suc k ≡ 8 + 8 * k
    shift k = omega arith

pub read_be-lt : (mem : List ℕ) (at n : ℕ) → IsBytes mem → read_be mem at n < 2 ^ (8 * n)
unfolding read_be
read_be-lt mem at zero b = omega arith
read_be-lt mem at (suc n) b =
    omega
      (arith, eight_more n, read_be-lt mem (at + 1) n b, product (2 ^ (8 * n)) (byte-lt mem at b))
  where
    product : (p : ℕ) → get_or mem at 0 < 256 → get_or mem at 0 * p ≤ 255 * p
    product p h = mul-le-mul_right p (omega arith)

drop_step :
    (mem : List ℕ) (at : ℕ) → at < length mem → drop at mem ≡ get_or mem at 0 ∷ drop (at + 1) mem
drop_step [] at h = absurd (omega arith)
drop_step (b ∷ mem) zero h = refl
drop_step (b ∷ mem) (suc at) h =
    drop_step mem at (omega arith) ∙ ap (λ (k : ℕ). get_or mem at 0 ∷ drop k (b ∷ mem)) (shift at)
  where
    shift : (n : ℕ) → suc (n + 1) ≡ suc n + 1
    shift n = omega arith

-- `n` bytes read as one number have the digits of the bytes.
pub read_be-digits :
    (mem : List ℕ) (at n : ℕ)
    → IsBytes mem
    → at + n ≤ length mem
    → bits (8 * n) (read_be mem at n) ++ byte_stream (drop (at + n) mem) ≡ byte_stream (drop at mem)
read_be-digits mem at zero b h =
    unfold bits in ap (λ (k : ℕ). byte_stream (drop k mem)) (omega arith)
read_be-digits mem at (suc n) b h =
    ap₂ (λ (k : ℕ) (j : ℕ). bits k (read_be mem at (suc n)) ++ byte_stream (drop j mem)) (shift n)
      (next at n)
    ∙ ap (λ (l : List Bool). l ++ byte_stream (drop (at + 1 + n) mem))
        (first (unfold read_be in refl))
    ∙ append_assoc (bits 8 (get_or mem at 0)) _ _
    ∙ ap (λ (l : List Bool). bits 8 (get_or mem at 0) ++ l)
        (read_be-digits mem (at + 1) n b (omega arith))
    ∙ sym (ap byte_stream (drop_step mem at (omega arith)) ∙ unfold byte_stream in refl)
  where
    shift : (k : ℕ) → 8 * suc k ≡ 8 + 8 * k
    shift k = omega arith

    next : (a k : ℕ) → a + suc k ≡ a + 1 + k
    next a k = omega arith

    first :
        read_be mem at (suc n) ≡ get_or mem at 0 * 2 ^ (8 * n) + read_be mem (at + 1) n
        → bits (8 + 8 * n) (read_be mem at (suc n))
          ≡ bits 8 (get_or mem at 0) ++ bits (8 * n) (read_be mem (at + 1) n)
    first e =
        ap (bits (8 + 8 * n)) e
        ∙ bits_fields 8 (8 * n) (get_or mem at 0) (read_be mem (at + 1) n)
            (read_be-lt mem (at + 1) n b)

pub length-byte_stream : (mem : List ℕ) → length (byte_stream mem) ≡ 8 * length mem
unfolding byte_stream
length-byte_stream [] = refl
length-byte_stream (b ∷ mem) =
    length-append (bits 8 b) (byte_stream mem)
    ∙ omega (arith, length-bits 8 b, length-byte_stream mem)

-- Whole bytes are dropped byte by byte.
pub byte_stream-drop :
    (k : ℕ) (mem : List ℕ) → drop (8 * k) (byte_stream mem) ≡ byte_stream (drop k mem)
unfolding byte_stream
byte_stream-drop zero mem = refl
byte_stream-drop (suc k) [] = drop-nil (8 * suc k)
byte_stream-drop (suc k) (b ∷ mem) =
    ap (λ (n : ℕ). drop n (bits 8 b ++ byte_stream mem)) (shift k)
    ∙ sym (drop-drop (8 * k) 8 (bits 8 b ++ byte_stream mem))
    ∙ ap (drop (8 * k)) (drop-append 8 (bits 8 b) (byte_stream mem) (sym (length-bits 8 b)))
    ∙ byte_stream-drop k mem
  where
    shift : (n : ℕ) → 8 * suc n ≡ 8 + 8 * n
    shift n = omega arith
