-- ===== src/IntBuilder/Value.antt =====
-- The numbers that bit vectors stand for, unsigned and in two's complement, and the pure adder.
use native.Mathlib.Nat.{pow-suc}
use mettle.Base.{
  ℕ, zero, suc, ◌+◌, ◌*◌, ◌^◌, ◌≤◌, ◌<◌, ◌≡◌, refl, ap, ◌∙◌, arith, Bool, true, false, List, [],
  ◌∷◌, length, if◌then◌else◌, ◌==◌, digit,
}
use mettle.Base.Int.{ℤ, sub_ℕ, pos_part, neg_part}
use mettle.IntBuilder.Adder.{sum_digit, carry_digit, add_digits}

-- Lowest digit first.
abbrev pub unsigned : List Bool → ℕ
unsigned [] = 0
unsigned (b ∷ bs) = digit b + 2 * unsigned bs

abbrev pub top : List Bool → Bool
top [] = false
top (b ∷ []) = b
top (b ∷ c ∷ bs) = top (c ∷ bs)

abbrev pub weight : Bool → ℕ → ℕ
weight true m = m
weight false m = 0

-- Two's complement: the top digit counts negatively.
unfoldable pub signed : List Bool → ℤ
signed bs = sub_ℕ (unsigned bs) (weight (top bs) (2 ^ length bs))

pub signed_parts :
    (bs : List Bool)
    → pos_part (signed bs) + weight (top bs) (2 ^ length bs) ≡ neg_part (signed bs) + unsigned bs
unfolding signed
signed_parts bs = ground arith

pub unsigned-lt : (bs : List Bool) → unsigned bs < 2 ^ length bs
unsigned-lt [] = omega arith
unsigned-lt (b ∷ bs) = ground (arith, unsigned-lt bs, pow-suc 2 (length bs))

-- The top digit tells the half in which the unsigned value lies.
pub top_half :
    (b : Bool) (bs : List Bool)
    → (weight (top (b ∷ bs)) (2 ^ length bs) ≤ unsigned (b ∷ bs))
      × (unsigned (b ∷ bs) < 2 ^ length bs + weight (top (b ∷ bs)) (2 ^ length bs))
top_half b [] = ground arith
top_half b (c ∷ bs) = ground (arith, top_half c bs, pow-suc 2 (length bs))

digits_add :
    (x y c : Bool)
    → digit (sum_digit x y c) + 2 * digit (carry_digit x y c) ≡ digit x + digit y + digit c
digits_add x y c = ground arith

-- Two lists of `n` digits each, for induction on both.
pub data Pairs : ℕ → List Bool → List Bool → Type 0 where
  nil : Pairs zero [] []
  cons : {n : ℕ} {xs ys : List Bool} (x y : Bool) → Pairs n xs ys → Pairs (suc n) (x ∷ xs) (y ∷ ys)

pub pairs : (n : ℕ) (xs ys : List Bool) → length xs ≡ n → length ys ≡ n → Pairs n xs ys
pairs zero [] [] hx hy = nil
pairs zero (x ∷ xs) ys hx hy = absurd (omega arith)
pairs zero [] (y ∷ ys) hx hy = absurd (omega arith)
pairs (suc n) [] ys hx hy = absurd (omega arith)
pairs (suc n) (x ∷ xs) [] hx hy = absurd (omega arith)
pairs (suc n) (x ∷ xs) (y ∷ ys) hx hy = cons x y (pairs n xs ys (omega arith) (omega arith))

pub Pairs-length : {n : ℕ} {xs ys : List Bool} → Pairs n xs ys → (length xs ≡ n) × (length ys ≡ n)
Pairs-length nil = (refl, refl)
Pairs-length (cons x y p) = (ap suc (Pairs-length p).0, ap suc (Pairs-length p).1)

pub length-add_digits :
    {n : ℕ} {xs ys : List Bool}
    → Pairs n xs ys
    → (c into : Bool) → length (add_digits n xs ys c into).0 ≡ n
length-add_digits nil c into = refl
length-add_digits (cons {n} x y p) c into =
    ap suc (length-add_digits p (carry_digit x y c) (if n == 0 then c else into))

pub weight-pow : (b : Bool) (n : ℕ) → weight b (2 ^ suc n) ≡ 2 * weight b (2 ^ n)
weight-pow true n = pow-suc 2 n ∙ omega arith
weight-pow false n = refl

-- The adder adds.
pub add_digits_value :
    {n : ℕ} {xs ys : List Bool}
    → Pairs n xs ys
    → (c into : Bool)
    → let r = add_digits n xs ys c into in
      unsigned r.0 + weight r.1.0 (2 ^ n) ≡ unsigned xs + unsigned ys + digit c
add_digits_value nil c into = ground arith
add_digits_value (cons {n} {xs} {ys} x y p) c into =
    let next = if n == 0 then c else into in
    let carry = carry_digit x y c in
    omega (
      arith,
      digits_add x y c,
      add_digits_value p carry next,
      weight-pow (add_digits n xs ys carry next).1.0 n,
    )

-- The carry out of the last digit, against the carry into it.
pub add_digits-top :
    {n : ℕ} {xs ys : List Bool}
    → Pairs (suc n) xs ys
    → (c into : Bool)
    → let r = add_digits (suc n) xs ys c into in
      digit r.1.1 + digit (top xs) + digit (top ys) ≡ digit (top r.0) + 2 * digit r.1.0
add_digits-top (cons x y nil) c into = ground arith
add_digits-top (cons {n = suc n} x y (cons z w p)) c into =
    add_digits-top (cons z w p) (carry_digit x y c) (if suc n == 0 then c else into)
