-- ===== src/Text/Numbers.antt =====
-- strconv.Itoa.
use Prim.Native.Char.{Char, code}
use Prim.Native.String.{[], ◌∷◌, ◌++◌}
use mathlib.Core.List.{[] as nil, ◌∷◌ as cons, ◌++◌ as ◌+++◌}
use text.Mathlib.TextLemmas.{nil-append, cons-append}
use claude_agent_sdk_go.Base.{
  refl, ℕ, zero, suc, ◌+◌, ◌*◌, ◌/◌, ◌%◌, ◌^◌, ◌<◌, ◌≡◌, ap, ◌∙◌, String, List, ℤ, pos, negsuc,
  wrap64, ◌-◌, sym, subst, lt→ltb, ltb-false, ltb, if◌then◌else◌, arith, if_true, if_false,
  if-cases, ltb→lt, nat_eq, Bool-cases, inl, inr,
}

-- The digits of a number below 10^fuel, before those of `acc`
unfoldable pub digits10 : ℕ → ℕ → List ℕ → List ℕ
digits10 zero n acc = acc
digits10 (suc fuel) n acc =
    let on = digits10 fuel (n / 10) (cons (n % 10) acc) in if ltb n 10 then cons n acc else on

unfoldable pub digit_at : ℕ → String → String → String
digit_at n [] s = s
digit_at zero (c ∷ ds) s = c ∷ s
digit_at (suc n) (c ∷ ds) s = digit_at n ds s

unfoldable pub text10 : List ℕ → String
text10 nil = []
text10 (cons d ds) = digit_at d "0123456789" (text10 ds)

-- The digits of a magnitude of an int64, which is below 10^20
unfoldable pub decimal : ℕ → String
decimal n = text10 (digits10 20 n nil)

-- strconv.Itoa
unfoldable pub itoa : ℤ → String
itoa (pos n) = decimal n
itoa (negsuc n) = "-" ++ decimal (suc n)

-- The number that digits stand for, after those that stand for `v`
pub value10 : ℕ → List ℕ → ℕ
value10 v nil = v
value10 v (cons d ds) = value10 (v * 10 + d) ds

limit10 : ℕ → ℕ
limit10 zero = 1
limit10 (suc n) = 10 * limit10 n

value10-digits10 :
    (fuel n : ℕ) (acc : List ℕ) → n < limit10 fuel → value10 0 (digits10 fuel n acc) ≡ value10 n acc
unfolding limit10 value10 digits10
value10-digits10 zero n acc h = ap (λ v. value10 v acc) (omega (arith, h))
value10-digits10 (suc fuel) n acc h = elim (Bool-cases (ltb n 10)) [
  | inl last ↦ ap (value10 0) (if_true _ _ _ last) ∙ ap (λ v. value10 v acc) (omega arith)
  | inr more ↦
      ap (value10 0) (if_false _ _ _ more)
      ∙ value10-digits10 fuel (n / 10) (cons (n % 10) acc) (omega (arith, h))
      ∙ ap (λ v. value10 v acc) (omega arith)
]

-- Twenty digits are enough for every magnitude of an int64.
pub digits10_whole : (n : ℕ) → n < 2 ^ 64 → value10 0 (digits10 20 n nil) ≡ n
unfolding limit10 value10
digits10_whole n h = value10-digits10 20 n nil (omega (arith, h))

-- The digit that a character is
unfoldable pub digit_of : Char → String → ℕ
digit_of c [] = 0
digit_of c (d ∷ ds) = let rest = digit_of c ds in if nat_eq (code c) (code d) then 0 else suc rest

read10 : String → List ℕ
read10 [] = nil
read10 (c ∷ s) = cons (digit_of c "0123456789") (read10 s)

read10-digit_at :
    (d : ℕ) (s : String) → d < 10 → read10 (digit_at d "0123456789" s) ≡ cons d (read10 s)
unfolding read10 digit_of digit_at
read10-digit_at zero s h = refl
read10-digit_at (suc zero) s h = refl
read10-digit_at (suc (suc zero)) s h = refl
read10-digit_at (suc (suc (suc zero))) s h = refl
read10-digit_at (suc (suc (suc (suc zero)))) s h = refl
read10-digit_at (suc (suc (suc (suc (suc zero))))) s h = refl
read10-digit_at (suc (suc (suc (suc (suc (suc zero)))))) s h = refl
read10-digit_at (suc (suc (suc (suc (suc (suc (suc zero))))))) s h = refl
read10-digit_at (suc (suc (suc (suc (suc (suc (suc (suc zero)))))))) s h = refl
read10-digit_at (suc (suc (suc (suc (suc (suc (suc (suc (suc zero))))))))) s h = refl
read10-digit_at (suc (suc (suc (suc (suc (suc (suc (suc (suc (suc d)))))))))) s h =
    absurd (omega (arith, h))

AreDigits : List ℕ → Type 0
AreDigits nil = Unit
AreDigits (cons d ds) = (d < 10) × AreDigits ds

read10-text10 : (ds : List ℕ) → AreDigits ds → read10 (text10 ds) ≡ ds
unfolding AreDigits read10 text10
read10-text10 nil h = refl
read10-text10 (cons d ds) h = read10-digit_at d (text10 ds) h.0 ∙ ap (cons d) (read10-text10 ds h.1)

digits10-AreDigits : (fuel n : ℕ) (acc : List ℕ) → AreDigits acc → AreDigits (digits10 fuel n acc)
unfolding AreDigits digits10
digits10-AreDigits zero n acc h = h
digits10-AreDigits (suc fuel) n acc h =
    if-cases AreDigits (ltb n 10) (λ last. (ltb→lt n 10 last, h))
      (λ more. digits10-AreDigits fuel (n / 10) _ (omega arith, h))

-- The number below 2^64 whose 64 bits the text of an int64 stands for; a sign is no digit
number_of : List ℕ → ℕ
number_of nil = 0
number_of (cons d ds) = if ltb d 10 then value10 0 (cons d ds) else 2 ^ 64 - value10 0 ds

number_of-eq-value10 : (ds : List ℕ) → AreDigits ds → number_of ds ≡ value10 0 ds
unfolding number_of value10 AreDigits
number_of-eq-value10 nil h = refl
number_of-eq-value10 (cons d ds) h = if_true _ _ _ (lt→ltb d 10 h.0)

value10-decimal : (n : ℕ) → n < 2 ^ 64 → value10 0 (read10 (decimal n)) ≡ n
unfolding decimal AreDigits
value10-decimal n h =
    ap (value10 0) (read10-text10 _ (digits10-AreDigits 20 n nil tt)) ∙ digits10_whole n h

decimal-AreDigits : (n : ℕ) → AreDigits (read10 (decimal n))
unfolding decimal AreDigits
decimal-AreDigits n =
    let digits = digits10-AreDigits 20 n nil tt in
    subst AreDigits (sym (read10-text10 _ digits)) digits

pub int_number : String → ℕ
int_number s = number_of (read10 s)

int_number-decimal : (n : ℕ) → n < 2 ^ 64 → int_number (decimal n) ≡ n
unfolding int_number
int_number-decimal n h =
    number_of-eq-value10 (read10 (decimal n)) (decimal-AreDigits n) ∙ value10-decimal n h

read10-append : (s t : String) → read10 (s ++ t) ≡ read10 s +++ read10 t
unfolding read10
read10-append [] t = ap read10 (nil-append t)
read10-append (c ∷ s) t =
    ap read10 (cons-append c s t) ∙ ap (cons (digit_of c "0123456789")) (read10-append s t)

int_number-minus : (n : ℕ) → n < 2 ^ 64 → int_number ("-" ++ decimal n) ≡ 2 ^ 64 - n
unfolding int_number number_of read10 digit_of
int_number-minus n h =
    ap number_of (read10-append "-" (decimal n)) ∙ ap (λ v. 2 ^ 64 - v) (value10-decimal n h)

-- The text of an int64 is read back as its 64 bits.
pub int_number-itoa : (n : ℕ) → n < 2 ^ 64 → int_number (itoa (wrap64 (pos n))) ≡ n
unfolding itoa wrap64
int_number-itoa n h =
    if-cases (λ z. int_number (itoa z) ≡ n) (ltb (n % 2 ^ 64) (2 ^ 63))
      (λ low. ap (λ k. int_number (decimal k)) (omega (arith, h)) ∙ int_number-decimal n h)
      (λ high.
        let m = 2 ^ 64 - 1 - n % 2 ^ 64 in
        int_number-minus (suc m) (omega (arith, h, ltb-false (n % 2 ^ 64) (2 ^ 63) high))
        ∙ omega (arith, h))
