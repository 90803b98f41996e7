-- ===== src/Chunk/LoopBound.antt =====
-- The loop of compress_chunk against the loop of compress_chunk_cmp_size_bound (cmp_icu.c).
use mathlib.Core.Option
use cmp_tool.Base.{
  ℕ, zero, suc, ◌+◌, ◌-◌, ◌*◌, ◌^◌, ◌≤◌, ◌<◌, ◌≡◌, refl, sym, ap, subst, ◌∙◌, arith, List, Option,
  none, some, Bool, true, false, ◌==◌, ltb, leb, not, drop, if◌then◌else◌,
}
use cmp_tool.Error.{
  CmpError, cmp_is_error, cmp_error, chunk_size_inconsistent, chunk_too_large,
  chunk_subservice_inconsistent,
}
use cmp_tool.Support.Check.{CmpCfg}
use cmp_tool.Encoder.Word.{Dst, Written}
use cmp_tool.Collection.Header.{collection_hdr_size, cmp_col_get_size}
use cmp_tool.Collection.ChunkType.{ChunkType, cmp_col_get_chunk_type}
use cmp_tool.Chunk.Internal.{Compressed}
use cmp_tool.Chunk.Collection.{Source, cmp_collection}
use cmp_tool.Chunk.EntryBound.{AtMost}
use cmp_tool.Chunk.SizeBound.{error-AtMost, cmp_collection-AtMost}
use cmp_tool.Chunk.Compress.{
  chunk_type_number, compress_collections, count_collections, advanced, after_round,
}

pub map_inverse {ℓ} :
    {A B : Type ℓ} (f : A → B) (o : Option A) (b : B)
    → Option.map f o ≡ some b
    → (a : A) × (o ≡ some a) × (f a ≡ b)
map_inverse f none b e = absurd (cc e)
map_inverse f (some a) b e = (a, refl, cc e)

after_round_inverse :
    (n : ℕ) (u : Option (List ℕ)) (o : Option Compressed) (c : Compressed)
    → after_round n u o ≡ some c
    → (d : Compressed) × (o ≡ some d) × (d.0 ≡ c.0)
unfolding after_round
after_round_inverse n u none c e = absurd (cc e)
after_round_inverse n u (some (w, l)) c e = ((w, l), refl, cc e)

pub if_result :
    (limit : ℕ) (c : Compressed) (t : Bool) (x y : Option Compressed)
    → (t ≡ true → x ≡ some c → AtMost limit c.0)
    → (t ≡ false → y ≡ some c → AtMost limit c.0)
    → (if t then x else y) ≡ some c
    → AtMost limit c.0
if_result limit c true x y p q e = p refl e
if_result limit c false x y p q e = q refl e

subservice_error : cmp_is_error (cmp_error chunk_subservice_inconsistent) ≡ true
unfolding cmp_is_error cmp_error
subservice_error = refl

pub size_error : cmp_is_error (cmp_error chunk_size_inconsistent) ≡ true
unfolding cmp_is_error cmp_error
size_error = refl

pub some_eq {ℓ} : {A : Type ℓ} {a b : A} → some a ≡ some b → a ≡ b
some_eq e = cc e

pub large_error : cmp_is_error (cmp_error chunk_too_large) ≡ true
unfolding cmp_is_error cmp_error
large_error = refl

-- What is returned with an error has no size.
pub failed :
    (limit : ℕ) (w : Written) (u : Option (List ℕ)) (c : Compressed)
    → cmp_is_error w.0 ≡ true
    → some (w, u) ≡ some c
    → AtMost limit c.0
failed limit w u c e same = error-AtMost limit c.0 (cc (e, same))

-- The collections of the rest of a chunk, and what they are counted to.
count_step :
    (fuel : ℕ) (bytes : List ℕ) (read chunk_size num : ℕ)
    → read + collection_hdr_size ≤ chunk_size
    → count_collections (suc fuel) bytes read chunk_size ≡ some (num, chunk_size)
    → (k : ℕ) × (num ≡ k + 1)
      × (count_collections fuel
            (drop (cmp_col_get_size bytes) bytes)
            (read + cmp_col_get_size bytes)
            chunk_size
          ≡ some (k, chunk_size))
unfolding count_collections
count_step fuel bytes read chunk_size num room e =
    let ((k, end), found, same) =
      map_inverse (λ (r : ℕ × ℕ). (r.0 + 1, r.1))
        (count_collections fuel (drop (cmp_col_get_size bytes) bytes)
          (read + cmp_col_get_size bytes) chunk_size)
        (num, chunk_size) (rw header at e) in
    (
      k,
      sym (ap (λ (r : ℕ × ℕ). r.0) same),
      found ∙ ap (λ (m : ℕ). some (k, m)) (ap (λ (r : ℕ × ℕ). r.1) same),
    )
  where
    header : leb (read + collection_hdr_size) chunk_size ≡ true
    header = ground arith

count_end :
    (fuel : ℕ) (bytes : List ℕ) (read chunk_size num : ℕ)
    → chunk_size < read + collection_hdr_size
    → count_collections (suc fuel) bytes read chunk_size ≡ some (num, chunk_size)
    → read ≡ chunk_size
unfolding count_collections
count_end fuel bytes read chunk_size num short e = ground arith

-- The loop with this fuel returns an error or at most the bound.
abbrev RestAtMost : ℕ → ChunkType → ℕ → CmpCfg → Type 0
RestAtMost fuel type capacity cfg =
    (left read num : ℕ) (s : Source) (dst : Dst) (n : ℕ) (c : Compressed)
    → count_collections fuel s.col read (left + read) ≡ some (num, left + read)
    → n + 2 * num + left < 2 ^ 27
    → compress_collections fuel type left s dst capacity cfg n ≡ some c
    → AtMost (n + 2 * num + left) c.0

module _ (fuel : ℕ) (type : ChunkType) (capacity : ℕ) (cfg : CmpCfg)
    (rest_bound : RestAtMost fuel type capacity cfg) (left read num : ℕ) (s : Source) (dst : Dst)
    (n : ℕ) (c : Compressed)
    (counted : count_collections (suc fuel) s.col read (left + read) ≡ some (num, left + read))
    (small : n + 2 * num + left < 2 ^ 27) where
  abbrev limit : ℕ
  limit = n + 2 * num + left

  abbrev size : ℕ
  size = cmp_col_get_size s.col

  abbrev round : Compressed
  round = cmp_collection s dst capacity cfg n

  abbrev later : Option Compressed
  later =
      compress_collections fuel type (left - size) (advanced size s) round.0.1 capacity cfg
        round.0.0

  abbrev refused_with : CmpError → Option Compressed
  refused_with e = some ((cmp_error e, dst), s.updated_model)

  abbrev rounds : Option Compressed
  rounds = if cmp_is_error round.0.0 then some round else after_round size round.1 later

  abbrev fitting : Option Compressed
  fitting = if ltb left size then refused_with chunk_size_inconsistent else rounds

  end-AtMost :
      (if left == 0 then some ((n, dst), s.updated_model) else refused_with chunk_size_inconsistent)
        ≡ some c
      → AtMost limit c.0
  end-AtMost =
      if_result limit c (left == 0) (some ((n, dst), s.updated_model))
        (refused_with chunk_size_inconsistent)
        (λ done. λ same. λ ok. omega (arith, ap (λ (d : Compressed). d.0.0) (some_eq same)))
        (λ torn. failed limit (cmp_error chunk_size_inconsistent, dst) s.updated_model c size_error)

  moved : ltb left size ≡ false → left + read ≡ left - size + (read + size)
  moved fits = ground arith

  moved_bound :
      (k : ℕ)
      → ltb left size ≡ false
      → num ≡ k + 1
      → round.0.0 ≤ n + 2 + size
      → {r : ℕ} → r ≤ round.0.0 + 2 * k + (left - size)
      → r ≤ limit
  moved_bound k fits m h b = ground arith

  -- The rounds behind the first.
  later-AtMost :
      leb collection_hdr_size left ≡ true
      → ltb left size ≡ false
      → cmp_is_error round.0.0 ≡ false
      → after_round size round.1 later ≡ some c
      → AtMost limit c.0
  later-AtMost room fits fine same =
      let (d, found, w) = after_round_inverse size round.1 later c same in
      let (k, num_eq, counted') =
        count_step fuel s.col read (left + read) num (ground arith) counted in
      let here : round.0.0 ≤ n + 2 + size =
        cmp_collection-AtMost s dst capacity cfg n (ground arith) fine in
      let rest : AtMost (round.0.0 + 2 * k + (left - size)) d.0 =
        rest_bound (left - size) (read + size) k (advanced size s) round.0.1 round.0.0 d
          (subst (λ (m : ℕ). count_collections fuel (drop size s.col) (read + size) m ≡ some (k, m))
            (moved fits) counted')
          (ground arith) found in
      λ ok. moved_bound k fits num_eq here (
        subst (λ (m : ℕ). m ≤ round.0.0 + 2 * k + (left - size)) (ap (λ (m : Written). m.0) w)
          (rest (ap (λ (m : Written). cmp_is_error m.0) w ∙ ok)))

  fitting-AtMost : leb collection_hdr_size left ≡ true → fitting ≡ some c → AtMost limit c.0
  fitting-AtMost room =
      if_result limit c (ltb left size) (refused_with chunk_size_inconsistent) rounds
        (λ over. failed limit (cmp_error chunk_size_inconsistent, dst) s.updated_model c size_error)
        (λ fits.
          if_result limit c (cmp_is_error round.0.0) (some round) (after_round size round.1 later)
            (failed limit round.0 round.1 c) (later-AtMost room fits))

  compress_collections-step :
      compress_collections (suc fuel) type left s dst capacity cfg n ≡ some c → AtMost limit c.0
  unfolding compress_collections
  compress_collections-step =
      if_result limit c (leb collection_hdr_size left)
        (if not (chunk_type_number (cmp_col_get_chunk_type s.col) == chunk_type_number type)
          then refused_with chunk_subservice_inconsistent
          else fitting)
        (if left == 0
          then some ((n, dst), s.updated_model)
          else refused_with chunk_size_inconsistent)
        (λ room.
          if_result limit c
            (not (chunk_type_number (cmp_col_get_chunk_type s.col) == chunk_type_number type))
            (refused_with chunk_subservice_inconsistent) fitting
            (λ other.
              failed limit (cmp_error chunk_subservice_inconsistent, dst) s.updated_model c
                subservice_error)
            (λ same_type. fitting-AtMost room))
        (λ no_room. end-AtMost)

pub compress_collections-AtMost :
    (fuel : ℕ) (type : ChunkType) (capacity : ℕ) (cfg : CmpCfg) → RestAtMost fuel type capacity cfg
unfolding compress_collections
compress_collections-AtMost zero type capacity cfg left read num s dst n c counted small e =
    absurd (cc e)
compress_collections-AtMost (suc fuel) type capacity cfg left read num s dst n c counted small e =
    compress_collections-step fuel type capacity cfg
      (compress_collections-AtMost fuel type capacity cfg) left read num s dst n c counted small e
