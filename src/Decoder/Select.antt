-- ===== src/Decoder/Select.antt =====
-- The code word decoders that `select_decoder` of decmp.c chooses.
use cmp_tool.Base.{
  ℕ, zero, suc, ◌+◌, ◌-◌, ◌/◌, ◌%◌, ◌^◌, ◌≤◌, ◌<◌, ◌≡◌, refl, sym, ap, ap₂, ◌∙◌, arith, subst,
}
use cmp_tool.Base.{Bool, true, false, List, [], ◌∷◌, ◌++◌, length, replicate}
use cmp_tool.Base.{length-append}
use cmp_tool.Base.Bits.{bits}
use cmp_tool.Golomb.{
  golomb_code, IsParam, IsCodable, golomb_code_low, golomb_code_high, length-unary,
}
use cmp_tool.Decoder.Reader.{BitDecoder}
use cmp_tool.Decoder.Value.{
  CodeWordDecoder, unary, rice, golomb, decode_cw, unary_decoder, rice_decoder, golomb_decoder,
}
use cmp_tool.Decoder.Register.{remaining, advance}
use mathlib.Core.List.{append_assoc}
use native.Mathlib.Nat.{pow-suc, one-le-pow}
use native.Mathlib.Decide.{dec_lt}
use cmp_tool.Decoder.CodeWord.{
  value_parts, golomb-reads_low, golomb-reads_high, rice-reads, unary-reads,
}
use cmp_tool.Base.{length-replicate}

-- The parameter 1 has no remainders.
unary_code :
    (value L : ℕ) → IsParam 1 L → golomb_code 1 L value ≡ replicate value true ++ (false ∷ [])
unary_code value zero p =
    golomb_code_low 1 0 value (omega arith)
    ∙ ap₂ (λ (n : ℕ) (l : List Bool). replicate n true ++ (false ∷ l)) (omega arith)
        (unfold bits in refl)
unary_code value (suc L) p = absurd (omega (arith, p.is_log, pow-suc 2 L, one-le-pow L 2))

-- Which decoder fits a parameter.
pub record IsDecoderFor (d : CodeWordDecoder) (m L : ℕ) : Type 0 where
  pub for_one : d ≡ unary → m ≡ 1
  pub for_power : d ≡ rice → (m ≡ 2 ^ L) × (0 < L)
  pub for_any : d ≡ golomb → 0 < L

module _ (mem : List ℕ) (dec : BitDecoder) {m L : ℕ} (value : ℕ) (rest : List Bool)
    (p : IsParam m L) (h : IsCodable m L value)
    (loaded : dec.bits_consumed + length (golomb_code m L value) ≤ 64)
    (e : remaining mem dec ≡ golomb_code m L value ++ rest) where
  -- The digits of a code with a short remainder.
  low_form :
      value % m < 2 ^ suc L - m
      → (length (golomb_code m L value) ≡ value / m + suc L)
        × (remaining mem dec ≡ replicate (value / m) true ++ (false ∷ (bits L (value % m) ++ rest)))
  low_form low = (
    ap length (golomb_code_low m L value low) ∙ length-unary (value / m) L (value % m),
    e
        ∙ ap (λ (l : List Bool). l ++ rest) (golomb_code_low m L value low)
        ∙ append_assoc (replicate (value / m) true) _ rest,
  )

  high_form :
      2 ^ suc L - m ≤ value % m
      → (length (golomb_code m L value) ≡ value / m + suc (suc L))
        × (remaining mem dec
            ≡ replicate (value / m) true
              ++ (false ∷ (bits (suc L) (value % m + (2 ^ suc L - m)) ++ rest)))
  high_form high = (
    ap length (golomb_code_high m L value high) ∙ length-unary (value / m) (suc L) _,
    e
        ∙ ap (λ (l : List Bool). l ++ rest) (golomb_code_high m L value high)
        ∙ append_assoc (replicate (value / m) true) _ rest,
  )

  by_golomb : 0 < L → golomb_decoder dec m L ≡ (value, advance dec (length (golomb_code m L value)))
  by_golomb pos = elim (dec_lt (value % m) (2 ^ suc L - m)) [
    | yes low ↦
        let (len, digits) = low_form low in
        rw len (golomb-reads_low mem dec value rest p h pos (omega (arith, len)) digits low)
    | no high ↦
        let (len, digits) = high_form (omega arith) in
        rw len (golomb-reads_high mem dec value rest p h (omega (arith, len)) digits (omega arith))
  ]

  by_rice :
      m ≡ 2 ^ L
      → 0 < L
      → rice_decoder dec m L ≡ (value, advance dec (length (golomb_code m L value)))
  by_rice power pos =
      let (len, digits) = low_form (omega (arith, pow-suc 2 L, value_parts value p h)) in
      rw len (rice-reads mem dec value rest p h power pos (omega (arith, len)) digits)

  by_unary : m ≡ 1 → unary_decoder dec m L ≡ (value, advance dec (length (golomb_code m L value)))
  by_unary one =
      unary-reads mem dec m L value rest (omega (arith, len)) (
        e
        ∙ ap (λ (l : List Bool). l ++ rest) code
        ∙ append_assoc (replicate value true) (false ∷ []) rest)
      ∙ ap (λ (n : ℕ). (value, advance dec n)) (sym len)
    where
      code : golomb_code m L value ≡ replicate value true ++ (false ∷ [])
      code =
          subst (λ k. IsParam k L → golomb_code k L value ≡ replicate value true ++ (false ∷ []))
            (sym one) (unary_code value L) p

      len : length (golomb_code m L value) ≡ suc value
      len =
          ap length code
          ∙ length-append (replicate value true) (false ∷ [])
          ∙ omega (arith, length-replicate value true)

  -- For a valid parameter and a codable value whose Golomb code is next and in the register,
  -- every code word decoder that fits the parameter returns the value and consumes exactly the
  -- code.
  pub decode_cw-reads :
      (d : CodeWordDecoder)
      → IsDecoderFor d m L
      → decode_cw d dec m L ≡ (value, advance dec (length (golomb_code m L value)))
  decode_cw-reads d f = cases d refl
    where
      cases :
          (k : CodeWordDecoder)
          → d ≡ k
          → decode_cw k dec m L ≡ (value, advance dec (length (golomb_code m L value)))
      cases rice s = unfold decode_cw in by_rice (f.for_power s).0 (f.for_power s).1
      cases golomb s = unfold decode_cw in by_golomb (f.for_any s)
      cases unary s = unfold decode_cw in by_unary (f.for_one s)
