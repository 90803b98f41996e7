-- ===== src/Bytes.antt =====
-- Big-endian numbers in a buffer of bytes: the packed structures of cmp_entity.h and
-- cmp_data_types.h, and the conversions of byteorder.h.
use cmp_tool.Base.{
  ℕ, zero, suc, ◌+◌, ◌*◌, ◌/◌, ◌%◌, ◌^◌, ◌≤◌, ◌<◌, ◌≡◌, refl, ap, ap₂, ◌∙◌, arith, List, Option, [],
  ◌∷◌, length, drop, replicate, get_or, set, length-set, get_or-set_self, get_or-set_ne, ◌⊎◌, inr,
}
use cmp_tool.Decoder.Reader.{read_be}
use cmp_tool.Decoder.Refill.Bytes.{IsBytes, eight_more}

-- The values 0, -1, 1 and -2 of functions that return `int`.
pub data Status : Type 0 where
  success failure failure_one failure_two : Status

-- The return value, and the buffer afterwards; `none` is the pointer NULL.
abbrev pub Updated : Type 0
Updated = Status × Option (List ℕ)

-- The `n` low bytes of `v`, big-endian, from offset `at` on.
unfoldable pub write_be : List ℕ → ℕ → ℕ → ℕ → List ℕ
write_be mem at zero v = mem
write_be mem at (suc n) v = write_be (set mem (at + n) (v % 256)) at n (v / 256)

pub length-write_be : (mem : List ℕ) (at n v : ℕ) → length (write_be mem at n v) ≡ length mem
unfolding write_be
length-write_be mem at zero v = refl
length-write_be mem at (suc n) v =
    length-write_be (set mem (at + n) (v % 256)) at n (v / 256) ∙ length-set mem (at + n) (v % 256)

pub set-IsBytes : (mem : List ℕ) (i v : ℕ) → IsBytes mem → v < 256 → IsBytes (set mem i v)
set-IsBytes [] i v b h = b
set-IsBytes (x ∷ mem) zero v b h = (h, b.1)
set-IsBytes (x ∷ mem) (suc i) v b h = (b.0, set-IsBytes mem i v b.1 h)

pub write_be-IsBytes : (mem : List ℕ) (at n v : ℕ) → IsBytes mem → IsBytes (write_be mem at n v)
unfolding write_be
write_be-IsBytes mem at zero v b = b
write_be-IsBytes mem at (suc n) v b =
    write_be-IsBytes (set mem (at + n) (v % 256)) at n (v / 256)
      (set-IsBytes mem (at + n) (v % 256) b (omega arith))

-- Bytes outside of the field stay.
pub get_or-write_be :
    (mem : List ℕ) (at n v i : ℕ)
    → (i < at) ⊎ (at + n ≤ i)
    → get_or (write_be mem at n v) i 0 ≡ get_or mem i 0
unfolding write_be
get_or-write_be mem at zero v i out = refl
get_or-write_be mem at (suc n) v i out =
    get_or-write_be (set mem (at + n) (v % 256)) at n (v / 256) i (omega arith)
    ∙ get_or-set_ne mem (at + n) i (v % 256) 0 (omega arith)

pub read_be-last :
    (mem : List ℕ) (at n : ℕ)
    → read_be mem at (suc n) ≡ read_be mem at n * 256 + get_or mem (at + n) 0
unfolding read_be
read_be-last mem at zero = omega (arith, ap (λ (i : ℕ). get_or mem i 0) (plus_zero at))
  where
    plus_zero : (k : ℕ) → k + 0 ≡ k
    plus_zero k = omega arith
read_be-last mem at (suc n) = omega (
  arith,
  eight_more n,
  ap (λ (t : ℕ). get_or mem at 0 * t) (eight_more n),
  read_be-last mem (at + 1) n,
  ap (λ (i : ℕ). get_or mem i 0) (shift at n),
)
  where
    shift : (a k : ℕ) → a + 1 + k ≡ a + suc k
    shift a k = omega arith

-- A field that is written is read back.
pub read_be-write_be :
    (mem : List ℕ) (at n v : ℕ)
    → at + n ≤ length mem
    → v < 2 ^ (8 * n)
    → read_be (write_be mem at n v) at n ≡ v
unfolding write_be
read_be-write_be mem at zero v h b = unfold read_be in omega arith
read_be-write_be mem at (suc n) v h b =
    let mem' : List ℕ = set mem (at + n) (v % 256) in
    read_be-last (write_be mem' at n (v / 256)) at n
    ∙ omega (
      arith,
      eight_more n,
      read_be-write_be mem' at n (v / 256) (omega (arith, length-set mem (at + n) (v % 256)))
          (omega (arith, eight_more n)),
      get_or-write_be mem' at n (v / 256) (at + n) (inr (omega arith)),
      get_or-set_self mem (at + n) (v % 256) 0 (omega arith),
    )

-- Fields that do not overlap do not meet.
pub read_be-write_be_ne :
    (mem : List ℕ) (at n v i m : ℕ)
    → (i + m ≤ at) ⊎ (at + n ≤ i)
    → read_be (write_be mem at n v) i m ≡ read_be mem i m
unfolding read_be
read_be-write_be_ne mem at n v i zero out = refl
read_be-write_be_ne mem at n v i (suc m) out =
    ap₂ (λ (b : ℕ) (r : ℕ). b * 2 ^ (8 * m) + r) (get_or-write_be mem at n v i (omega arith))
      (read_be-write_be_ne mem at n v (i + 1) m (omega arith))

drop-set : (k : ℕ) (xs : List ℕ) (i v : ℕ) → i < k → drop k (set xs i v) ≡ drop k xs
drop-set zero xs i v h = elim h [ ]
drop-set (suc k) [] i v h = refl
drop-set (suc k) (x ∷ xs) zero v h = refl
drop-set (suc k) (x ∷ xs) (suc i) v h = drop-set k xs i v (omega arith)

-- Bytes behind the field stay.
pub drop-write_be :
    (k : ℕ) (mem : List ℕ) (at n v : ℕ) → at + n ≤ k → drop k (write_be mem at n v) ≡ drop k mem
unfolding write_be
drop-write_be k mem at zero v h = refl
drop-write_be k mem at (suc n) v h =
    drop-write_be k (set mem (at + n) (v % 256)) at n (v / 256) (omega arith)
    ∙ drop-set k mem (at + n) (v % 256) (omega arith)

pub get_or-zeros : (n i : ℕ) → get_or {A = ℕ} (replicate n 0) i 0 ≡ 0
get_or-zeros zero i = refl
get_or-zeros (suc n) zero = refl
get_or-zeros (suc n) (suc i) = get_or-zeros n i
