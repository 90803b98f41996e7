-- ===== src/Encoder/Emits.antt =====
-- The contract of every operation that writes to the bitstream: which digits it appends, what it
-- does when they do not fit, and what it returns when there is no buffer.
use cmp_tool.Base.{ℕ, zero, suc, ◌+◌, ◌*◌, ◌^◌, ◌≤◌, ◌<◌, ◌≡◌, refl, sym, ap, ◌∙◌, arith}
use cmp_tool.Base.{Bool, true, false, List, [], ◌++◌, le→ltb, length, length-append}
use cmp_tool.Base.{none, some, take-append-drop, take, drop}
use cmp_tool.Base.Bits.{bits}
use cmp_tool.Base.Bits.Digits.{length-bits}
use mathlib.Core.Path.{subst, fun_ext}
use native.Mathlib.Decide.{dec_lt}
use cmp_tool.Error.{cmp_error, cmp_is_error, small_buffer}
use cmp_tool.Encoder.Word.{Dst, Written, put_n_bits32, put_words}
use cmp_tool.Encoder.Value.{◌>>=◌}
use cmp_tool.Encoder.Put.Stream.{
  stream, length-stream, splice, splice-splice, stream-put_words, length-put_words,
}

-- Lengths that are not mistaken for error codes.
abbrev pub IsLength : ℕ → Type 0
IsLength n = n + 127 ≤ 2 ^ 32

-- `f` appends the digits `l` to a stream of capacity `max`.
pub record Emits (max : ℕ) (f : ℕ → Dst → Written) (l : List Bool) : Type 0 where
  pub writes :
      (o : ℕ) (ws : List ℕ)
      → o + length l ≤ max
      → max ≤ 32 * length ws
      → (ws' : List ℕ) × (f o (some ws) ≡ (o + length l, some ws'))
        × (length ws' ≡ length ws)
        × (stream ws' ≡ splice o l (stream ws))
  pub overflows :
      (o : ℕ) (ws : List ℕ)
      → o ≤ max
      → max < o + length l
      → max ≤ 32 * length ws
      → (f o (some ws)).0 ≡ cmp_error small_buffer
  pub measures : (o : ℕ) → IsLength (o + length l) → f o none ≡ (o + length l, none)

-- Another operation that does the same, and the digits written in another way.
pub Emits-cong :
    {max : ℕ} {f g : ℕ → Dst → Written} {l m : List Bool}
    → ((o : ℕ) (dst : Dst) → f o dst ≡ g o dst)
    → l ≡ m
    → Emits max g m
    → Emits max f l
Emits-cong {max} {f} {g} {l} {m} same digits e =
    subst (λ h. Emits max h l) (sym (fun_ext (λ o. fun_ext (same o))))
      (subst (Emits max g) (sym digits) e)

pub not_error : (n : ℕ) → IsLength n → cmp_is_error n ≡ false
unfolding cmp_is_error
not_error n h = le→ltb _ n (omega arith)

small_buffer-error : cmp_is_error (cmp_error small_buffer) ≡ true
unfolding cmp_is_error cmp_error
small_buffer-error = refl

splice_nothing : (o : ℕ) (s : List Bool) → splice o [] s ≡ s
splice_nothing o s = ap (λ (k : ℕ). take o s ++ drop k s) (plus o) ∙ take-append-drop o s
  where
    plus : (n : ℕ) → n + 0 ≡ n
    plus n = omega arith

-- For at most 32 digits and a capacity that is not an error code, put_n_bits32 appends the low
-- digits of its value, over one word or two, and leaves every other digit of the buffer; it
-- reports a small buffer when they do not fit.
pub put_n_bits32-Emits :
    (v n max : ℕ) → n ≤ 32 → IsLength max → Emits max (put_n_bits32 v n max) (bits n v)
unfolding put_n_bits32
put_n_bits32-Emits v zero max hn hm = record {
  writes = λ o ws h fits. (
    ws,
    ground (arith, length-bits 0 v),
    refl,
    unfold bits in sym (splice_nothing o (stream ws)),
  );
  overflows = λ o ws h over fits. absurd (omega (arith, length-bits 0 v));
  measures = λ o h. ground (arith, length-bits 0 v);
}
put_n_bits32-Emits v (suc n) max hn hm = record {
  writes = λ o ws h fits. (
    put_words v (suc n) o ws,
    ground (arith, length-bits (suc n) v),
    length-put_words v (suc n) o ws,
    stream-put_words v (suc n) o ws (omega arith) hn (omega (arith, length-bits (suc n) v)),
  );
  overflows = λ o ws h over fits. ground (arith, length-bits (suc n) v);
  measures = λ o h. ground (arith, length-bits (suc n) v);
}

-- One operation behind another.
pub >>=-Emits :
    {max : ℕ} {f g : ℕ → Dst → Written} {l m : List Bool}
    → IsLength max
    → Emits max f l
    → Emits max g m
    → Emits max (λ o dst. f o dst >>= g) (l ++ m)
>>=-Emits {max} {f} {g} {l} {m} hm ef eg = record {
  writes = λ o ws h fits.
      let (ws₁, e₁, len₁, s₁) = ef.writes o ws (omega (arith, both)) fits in
      let (ws₂, e₂, len₂, s₂) =
        eg.writes (o + length l) ws₁ (omega (arith, both)) (omega (arith, len₁)) in
      (
        ws₂,
        rw (e₁, not_error (o + length l) (omega (arith, both)), e₂) (ground (arith, both)),
        len₂ ∙ len₁,
        s₂
            ∙ ap (splice (o + length l) m) s₁
            ∙ splice-splice o l m (stream ws) (omega (arith, both, length-stream ws)),
      );
  overflows = λ o ws h over fits. elim (dec_lt max (o + length l)) [
    | yes early ↦ ground (arith, ef.overflows o ws h early fits, small_buffer-error)
    | no late ↦
        let (ws₁, e₁, len₁, s₁) = ef.writes o ws (omega arith) fits in
        rw (e₁, not_error (o + length l) (omega arith))
          (eg.overflows (o + length l) ws₁ (omega arith) (omega (arith, both))
            (omega (arith, len₁)))
  ];
  measures = λ o h.
      rw (ef.measures o (omega (arith, both)), not_error (o + length l) (omega (arith, both)))
        (rw (eg.measures (o + length l) (omega (arith, both))) (ground (arith, both)));
}
  where
    both : length (l ++ m) ≡ length l + length m
    both = length-append l m

-- No operation.
pub nothing-Emits : (max : ℕ) → Emits max (λ o dst. (o, dst)) []
nothing-Emits max = record {
  writes = λ o ws h fits. (ws, ground arith, refl, sym (splice_nothing o (stream ws)));
  overflows = λ o ws h over fits. absurd (omega arith);
  measures = λ o h. ground arith;
}
