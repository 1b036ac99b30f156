-- ===== src/Base/Assoc.antt =====
-- Go maps as association lists. `put` overwrites in place, so that no key occurs twice.
use mathlib.Core.Path.{◌≡◌, refl}
use mathlib.Core.Logic.{inl, inr}
use mathlib.Core.Bool.{Bool, false}
use mathlib.Core.Option.{Option, none, some}
use mathlib.Core.List.{List, [], ◌∷◌}
use native.Mathlib.Omega.{arith}
use claude_agent_sdk_go.Base.Tests.{Comparable, ◌==◌, if◌then◌else◌, Bool-cases, equal_refl}

module _ {ℓ κ} {K : Type ℓ} {V : Type κ} ⦃e : Comparable K⦄ where
  -- m[k], with its second result
  unfoldable pub get : K → List (K × V) → Option V
  get k [] = none
  get k ((j, v) ∷ m) = if j == k then some v else get k m

  -- m[k] = v
  unfoldable pub put : K → V → List (K × V) → List (K × V)
  put k v [] = (k, v) ∷ []
  put k v ((j, w) ∷ m) = if j == k then (j, v) ∷ m else (j, w) ∷ put k v m

  -- delete(m, k) for every key that passes the test
  unfoldable pub del : (K → Bool) → List (K × V) → List (K × V)
  del p [] = []
  del p ((j, w) ∷ m) = let rest = del p m in if p j then rest else (j, w) ∷ rest

  pub get-put :
      (k j : K) (v : V) (m : List (K × V))
      → get j (put k v m) ≡ (if k == j then some v else get j m)
  unfolding get put
  get-put k j v [] = refl
  get-put k j v ((i, w) ∷ m) =
      ground (arith, e.equal_iff i k, e.equal_iff i j, e.equal_iff k j, get-put k j v m)

  pub get-put_self : (k : K) (v : V) (m : List (K × V)) → get k (put k v m) ≡ some v
  get-put_self k v m = rw (get-put k k v m, equal_refl k)

  pub get-del :
      (p : K → Bool) (j : K) (m : List (K × V)) → get j (del p m) ≡ (if p j then none else get j m)
  unfolding get del
  get-del p j [] = ground arith
  get-del p j ((i, w) ∷ m) = elim (Bool-cases (i == j)) [
    | inl same ↦ rw (← (e.equal_iff i j).0 same) (ground (arith, get-del p i m, equal_refl i))
    | inr other ↦ ground (arith, get-del p j m)
  ]

  -- No key occurs twice.
  abbrev pub Distinct : List (K × V) → Type κ
  Distinct [] = Unit
  Distinct ((j, v) ∷ m) = (get j m ≡ none) × Distinct m

  pub put-Distinct : (k : K) (v : V) (m : List (K × V)) → Distinct m → Distinct (put k v m)
  unfolding get put
  put-Distinct k v [] d = (refl, tt)
  put-Distinct k v ((i, w) ∷ m) d = elim (Bool-cases (i == k)) [
    | inl same ↦ rw same d
    | inr other ↦ rw other (fresh other, put-Distinct k v m d.1)
  ]
    where
      fresh : (i == k) ≡ false → get i (put k v m) ≡ none
      fresh other = ground (arith, get-put k i v m, e.equal_iff k i, e.equal_iff i k)

  pub del-Distinct : (p : K → Bool) (m : List (K × V)) → Distinct m → Distinct (del p m)
  unfolding del
  del-Distinct p [] d = tt
  del-Distinct p ((i, w) ∷ m) d = elim (Bool-cases (p i)) [
    | inl gone ↦ rw gone (del-Distinct p m d.1)
    | inr kept ↦ rw kept (rw (get-del p i m, kept) d.0, del-Distinct p m d.1)
  ]
