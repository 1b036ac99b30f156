-- ===== src/Messages/Blocks/Failures.antt =====
-- Where contentBlocksFromRaw fails.
use claude_agent_sdk_go.Base.{
  ℕ, suc, ◌+◌, ◌≡◌, refl, ap, subst, sym, Option, some, none, inl, inr, arith, List, [], ◌∷◌, ◌++◌,
  length, ◌⊎◌, Bool, true, false,
}
use claude_agent_sdk_go.Base.Result.{
  Result, ok, err, ◌>>=◌, wrap_error, ok_or, bind-eq-err, ok_or-eq-err,
}
use claude_agent_sdk_go.Json.{
  Value, null, bool, int, int64, float64, str, arr, obj, Items, no_items, item, to_list, of_list,
}
use claude_agent_sdk_go.Json.Decode.{decode_struct}
use claude_agent_sdk_go.Protocol.Blocks.{decode_content_block}
use claude_agent_sdk_go.Messages.Blocks.{
  content_blocks, content_blocks_from_raw, parse_content_blocks, ContentBlock, ContentBlocks,
  no_blocks, block, ContentError, decode_block, in_block, content_block_from_wire, block_at,
  content_items, inner_of,
}

-- The index that an error of the loop names
abbrev pub error_index : ContentError → Option ℕ
error_index (decode_block i) = some i
error_index (in_block i e) = some i
error_index _ = none

wrap_error-index :
    {A : Type 0} (i : ℕ) (r : Result ContentError A) (e : ContentError)
    → wrap_error (in_block i) r ≡ err e
    → error_index e ≡ some i
wrap_error-index i (ok a) e h = cc
wrap_error-index i (err f) e h = let same : in_block i f ≡ e = cc in ap error_index (sym same)

block_at-index :
    (i : ℕ) (v : Value) (inner : Result ContentError ContentBlocks) (e : ContentError)
    → block_at i v inner ≡ err e
    → error_index e ≡ some i
unfolding block_at
block_at-index i v inner e h =
    elim (bind-eq-err (ok_or (decode_block i) (decode_struct decode_content_block v))
      (λ b. wrap_error (in_block i) (content_block_from_wire b v inner)) h) [
        | inl undecoded ↦
            ap error_index (ok_or-eq-err _ (decode_struct decode_content_block v) undecoded).1
        | inr (b, read, failed) ↦ wrap_error-index i (content_block_from_wire b v inner) e failed
      ]

-- The loop over `xs` from index `i` on failed with `e`: the blocks of `before` are read, that of
-- `failing` is not, and the error has its index.
pub record IsFailure (i : ℕ) (xs : List Value) (e : ContentError) : Type 0 where
  pub before : List Value
  pub failing : Value
  pub after : List Value
  pub splits : xs ≡ before ++ failing ∷ after
  pub blocks : ContentBlocks
  pub before_read : content_items i (of_list before) ≡ ok blocks
  pub fails : block_at (i + length before) failing (inner_of failing) ≡ err e
  pub index : error_index e ≡ some (i + length before)

here-IsFailure :
    (i : ℕ) (v : Value) (xs : List Value) (e : ContentError)
    → block_at i v (inner_of v) ≡ err e
    → IsFailure i (v ∷ xs) e
unfolding content_items of_list
here-IsFailure i v xs e h =
    let moved : i ≡ i + 0 = omega arith in
    record {
      before = [];
      failing = v;
      after = xs;
      splits = refl;
      blocks = no_blocks;
      before_read = refl;
      fails = subst (λ j. block_at j v (inner_of v) ≡ err e) moved h;
      index = subst (λ j. error_index e ≡ some j) moved (block_at-index i v (inner_of v) e h);
    }

later-IsFailure :
    (i : ℕ) (v : Value) (c : ContentBlock) (xs : List Value) (e : ContentError)
    → block_at i v (inner_of v) ≡ ok c
    → IsFailure (suc i) xs e
    → IsFailure i (v ∷ xs) e
unfolding content_items of_list
later-IsFailure i v c xs e read f =
    let moved : suc i + length f.before ≡ i + suc (length f.before) = omega arith in
    record {
      before = v ∷ f.before;
      failing = f.failing;
      after = f.after;
      splits = ap (λ ys. v ∷ ys) f.splits;
      blocks = block c f.blocks;
      before_read = rw (read, f.before_read) refl;
      fails = subst (λ j. block_at j f.failing (inner_of f.failing) ≡ err e) moved f.fails;
      index = subst (λ j. error_index e ≡ some j) moved f.index;
    }

-- Where an array fails, its first element that is not read is at fault: all before it are read, and
-- the error wraps its index and its own error.
pub content_items-IsFailure :
    (i : ℕ) (xs : Items) (e : ContentError)
    → content_items i xs ≡ err e
    → IsFailure i (to_list xs) e
unfolding content_items to_list of_list
content_items-IsFailure i no_items e h = absurd (cc)
content_items-IsFailure i (item v xs) e h =
    elim (bind-eq-err (block_at i v (inner_of v))
      (λ b. content_items (suc i) xs >>= (λ bs. ok (block b bs))) h) [
        | inl fails ↦ here-IsFailure i v (to_list xs) e fails
        | inr (c, read, rest) ↦
            elim (bind-eq-err (content_items (suc i) xs) (λ bs. ok (block c bs)) rest) [
              | inl fails ↦
                  later-IsFailure i v c (to_list xs) e read
                    (content_items-IsFailure (suc i) xs e fails)
              | inr (bs, all, impossible) ↦ absurd (cc)
            ]
      ]

-- The values that contentBlocksFromRaw reads: null, a text or an array
abbrev pub is_content : Value → Bool
is_content null = true
is_content (str s) = true
is_content (arr xs) = true
is_content _ = false

-- Content fails in one of two ways. Either it is no text, no array and not null, and the error names no
-- index; or it is an array, all elements before one are read, that one is not, and the error wraps
-- its index and its own error.
pub content_blocks-IsFailure :
    (raw : Option Value) (e : ContentError)
    → content_blocks_from_raw raw ≡ err e
    → ((v : Value) × (raw ≡ some v) × (is_content v ≡ false) × (e ≡ parse_content_blocks))
      ⊎ ((xs : Items) × (raw ≡ some (arr xs)) × IsFailure 0 (to_list xs) e)
unfolding content_blocks_from_raw content_blocks
content_blocks-IsFailure none e h = absurd (cc)
content_blocks-IsFailure (some null) e h = absurd (cc)
content_blocks-IsFailure (some (str s)) e h = absurd (cc)
content_blocks-IsFailure (some (arr xs)) e h = inr (xs, refl, content_items-IsFailure 0 xs e h)
content_blocks-IsFailure (some (bool b)) e h = inl (bool b, refl, refl, cc)
content_blocks-IsFailure (some (int n)) e h = inl (int n, refl, refl, cc)
content_blocks-IsFailure (some (int64 n)) e h = inl (int64 n, refl, refl, cc)
content_blocks-IsFailure (some (float64 n)) e h = inl (float64 n, refl, refl, cc)
content_blocks-IsFailure (some (obj m)) e h = inl (obj m, refl, refl, cc)
