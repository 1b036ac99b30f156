-- ===== src/Sessions/Paginate.antt =====
-- domains/sessions/list_from_store.go: paginate. The limit and the offset are ints.
use claude_agent_sdk_go.Base.{
  ℕ, zero, suc, ◌+◌, ◌≤◌, ◌≡◌, refl, ap, ◌∙◌, ◌&&◌, List, [], ◌∷◌, ◌++◌, ℤ, pos, pos_part, length,
  take, drop, take-append-drop, length-take, ltb, leb, arith, if◌then◌else◌,
}

module _ {ℓ} {A : Type ℓ} where
  unfoldable pub cut_offset : ℕ → List A → List A
  cut_offset n xs = if ltb 0 n then (if leb (length xs) n then [] else drop n xs) else xs

  unfoldable pub cut_limit : ℕ → List A → List A
  cut_limit n xs = if ltb 0 n && ltb n (length xs) then take n xs else xs

  -- paginate(s, limit, offset): a number that is not positive is as good as 0.
  unfoldable pub paginate : List A → ℤ → ℤ → List A
  unfolding cut_offset cut_limit
  paginate xs limit offset = cut_limit (pos_part limit) (cut_offset (pos_part offset) xs)

module _ {A : Type 0} where
  drop_all : (n : ℕ) (xs : List A) → length xs ≤ n → drop n xs ≡ []
  drop_all zero [] h = refl
  drop_all zero (x ∷ xs) h = absurd (omega arith)
  drop_all (suc n) [] h = refl
  drop_all (suc n) (x ∷ xs) h = drop_all n xs (omega arith)

  take_all : (n : ℕ) (xs : List A) → length xs ≤ n → take n xs ≡ xs
  take_all zero [] h = refl
  take_all zero (x ∷ xs) h = absurd (omega arith)
  take_all (suc n) [] h = refl
  take_all (suc n) (x ∷ xs) h = ap (λ ys. x ∷ ys) (take_all n xs (omega arith))

  drop-cut_offset : (n : ℕ) (xs : List A) → cut_offset n xs ≡ drop n xs
  unfolding cut_offset
  drop-cut_offset zero xs = refl
  drop-cut_offset (suc n) xs = ground (arith, drop_all (suc n) xs)

  take-cut_limit : (n : ℕ) (xs : List A) → cut_limit (suc n) xs ≡ take (suc n) xs
  unfolding cut_limit
  take-cut_limit n xs = ground (arith, take_all (suc n) xs)

  drop-add : (k m : ℕ) (xs : List A) → drop (k + m) xs ≡ drop m (drop k xs)
  drop-add zero m xs = let e : zero + m ≡ m = omega arith in ap (λ j. drop j xs) e
  drop-add (suc k) zero [] =
      let e : suc k + zero ≡ suc k = omega arith in ap (λ j. drop {A = A} j []) e
  drop-add (suc k) (suc m) [] =
      let e : suc k + suc m ≡ suc (k + suc m) = omega arith in ap (λ j. drop {A = A} j []) e
  drop-add (suc k) m (x ∷ xs) =
      let e : suc k + m ≡ suc (k + m) = omega arith in ap (λ j. drop j (x ∷ xs)) e ∙ drop-add k m xs

  -- A page of `limit` elements and what follows the offset at its end are what follows its offset:
  -- consecutive pages skip nothing and repeat nothing. A page holds at most `limit` elements.
  pub paginate-append :
      (xs : List A) (n k : ℕ)
      → (paginate xs (pos (suc n)) (pos k) ++ paginate xs (pos 0) (pos (k + suc n))
          ≡ paginate xs (pos 0) (pos k))
        × (length (paginate xs (pos (suc n)) (pos k)) ≤ suc n)
  unfolding paginate
  paginate-append xs n k =
      rw
        (
          take-cut_limit n (cut_offset k xs),
          drop-cut_offset (k + suc n) xs,
          drop-cut_offset k xs,
          drop-add k (suc n) xs,
        )
        (take-append-drop (suc n) (drop k xs), omega (arith, length-take (suc n) (drop k xs)))
