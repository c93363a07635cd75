-- ===== src/IntBuilder/Compare.antt =====
-- `eq`, `unsigned_lt` and the signed comparisons decide equality and order of the integers.
use native.Mathlib.Nat.{pow-suc}
use mettle.Base.{
  ℕ, zero, suc, ◌+◌, ◌*◌, ◌^◌, ◌≡◌, refl, ap, ◌∙◌, arith, Bool, false, not, ◌&&◌, ◌||◌, List, [],
  ◌∷◌, map, length, ltb, digit,
}
use mettle.Base.Int.{ltb_ℤ}
use mettle.Solve.Models.{Valuation}
use mettle.Circuit
use mettle.Circuit.{CircuitBool, bool_not, const}
use mettle.Circuit.Model.{
  Denotes, Total, bit, bits, bool_value, pure-Total, later, bind-Total, cost_le, self-Denotes,
  Extends-trans,
}
use mettle.Circuit.Operations.{and_Total, or_many-Total, not-Denotes, cons-Denotes, nil-Denotes}
use mettle.IntBuilder.{borrow_loop, flip_at}
use mettle.IntBuilder.Adder.{tail_minted}
use mettle.IntBuilder.Value.{unsigned, top, weight, signed, Pairs, pairs, nil, cons}
use mettle.IntBuilder.Wrapping.{signed_at}

abbrev next_borrow : Bool → Bool → Bool → Bool
next_borrow x y r = (not x && y) || ((not x && r) || ((y && r) || false))

abbrev pub borrow_digits : List Bool → List Bool → Bool → Bool
borrow_digits (x ∷ xs) (y ∷ ys) r = borrow_digits xs ys (next_borrow x y r)
borrow_digits _ _ r = r

pub borrow_digits_lt :
    {n : ℕ} {xs ys : List Bool}
    → Pairs n xs ys
    → (r : Bool) → borrow_digits xs ys r ≡ ltb (unsigned xs) (unsigned ys + digit r)
borrow_digits_lt nil r = ground arith
borrow_digits_lt (cons {xs} {ys} x y p) r = borrow_digits_lt p (next_borrow x y r) ∙ ground arith

pub borrow_loop-Total :
    (n : ℕ) {s : Circuit.Circuit} (xs ys : List CircuitBool) {r : CircuitBool}
    {g : Valuation → Bool}
    → (bits n).minted s.cnf.num_vars xs
    → (bits n).minted s.cnf.num_vars ys
    → Denotes bit s r g
    → Total bit s
        (n * 4)
        (borrow_loop xs ys r)
        (λ ρ. borrow_digits (map (bool_value ρ) xs) (map (bool_value ρ) ys) (g ρ))
unfolding borrow_loop
borrow_loop-Total n [] ys hx hy d = cost_le (omega arith) (pure-Total d)
borrow_loop-Total zero (a ∷ xs) ys hx hy d = absurd (omega (arith, hx.0))
borrow_loop-Total (suc n) (a ∷ xs) [] hx hy d = absurd (omega (arith, hy.0))
borrow_loop-Total (suc n) {s} (a ∷ xs) (b ∷ ys) hx hy d =
    let da = not-Denotes (self-Denotes {x = bit} {s = s} {a = a} hx.1.0) in
    let db = self-Denotes {x = bit} {s = s} {a = b} hy.1.0 in
    cost_le (omega arith) (
      bind-Total (and_Total da db) λ nab t e dnab.
        bind-Total (and_Total (later e da) (later e d)) λ nabr u f dnabr.
          bind-Total (and_Total (later f (later e db)) (later f (later e d))) λ bbr v i dbbr.
            bind-Total
              (or_many-Total (
                cons-Denotes (later i (later f dnab))
                  (cons-Denotes (later i dnabr) (cons-Denotes dbbr nil-Denotes))))
              λ next w j dnext.
                let whole = Extends-trans e (Extends-trans f (Extends-trans i j)) in
                borrow_loop-Total n xs ys (tail_minted a xs whole hx) (tail_minted b ys whole hy)
                  dnext)

-- Inverting the last digit.
abbrev pub flip_top : List Bool → List Bool
flip_top [] = []
flip_top (b ∷ []) = not b ∷ []
flip_top (b ∷ c ∷ bs) = b ∷ flip_top (c ∷ bs)

length-flip_top : (bs : List Bool) → length (flip_top bs) ≡ length bs
length-flip_top [] = refl
length-flip_top (b ∷ []) = refl
length-flip_top (b ∷ c ∷ bs) = ap suc (length-flip_top (c ∷ bs))

unsigned-flip_top :
    (b : Bool) (bs : List Bool)
    → unsigned (flip_top (b ∷ bs)) + weight (top (b ∷ bs)) (2 ^ length bs)
      ≡ unsigned (b ∷ bs) + weight (not (top (b ∷ bs))) (2 ^ length bs)
unsigned-flip_top b [] = ground arith
unsigned-flip_top b (c ∷ bs) = ground (arith, unsigned-flip_top c bs, pow-suc 2 (length bs))

pub flip_at-Total :
    (m : ℕ) {s : Circuit.Circuit} (a : List CircuitBool)
    → (bits (suc m)).minted s.cnf.num_vars a
    → Total (bits (suc m)) s 0 (flip_at m a) (λ ρ. flip_top (map (bool_value ρ) a))
unfolding flip_at
flip_at-Total m [] h = absurd (omega (arith, h.0))
flip_at-Total zero (b ∷ c ∷ bs) h = absurd (omega (arith, h.0))
flip_at-Total (suc m) (b ∷ []) h = absurd (omega (arith, h.0))
flip_at-Total zero {s} (b ∷ []) h =
    pure-Total
      (cons-Denotes (not-Denotes (self-Denotes {x = bit} {s = s} {a = b} h.1.0)) nil-Denotes)
flip_at-Total (suc m) {s} (b ∷ c ∷ bs) h =
    bind-Total (flip_at-Total m (c ∷ bs) (omega (arith, h.0), h.1.1)) λ rest t e d.
      pure-Total (cons-Denotes (later e (self-Denotes {x = bit} {s = s} {a = b} h.1.0)) d)

-- Order after inverting the top digits is the signed order.
pub flipped_order :
    (m : ℕ) (xs ys : List Bool)
    → length xs ≡ suc m
    → length ys ≡ suc m
    → borrow_digits (flip_top xs) (flip_top ys) false ≡ ltb_ℤ (signed xs) (signed ys)
flipped_order m [] ys hx hy = absurd (omega arith)
flipped_order m (x ∷ xs) [] hx hy = absurd (omega arith)
flipped_order m (x ∷ xs) (y ∷ ys) hx hy =
    borrow_digits_lt
      (pairs (suc m) (flip_top (x ∷ xs)) (flip_top (y ∷ ys)) (length-flip_top (x ∷ xs) ∙ hx)
        (length-flip_top (y ∷ ys) ∙ hy))
      false
    ∙ ground (
      arith,
      unsigned-flip_top x xs,
      unsigned-flip_top y ys,
      signed_at m (x ∷ xs) hx,
      signed_at m (y ∷ ys) hy,
      pow-suc 2 m,
      power xs hx,
      power ys hy,
    )
  where
    power : (zs : List Bool) → suc (length zs) ≡ suc m → 2 ^ length zs ≡ 2 ^ m
    power zs h = let e : length zs ≡ m = omega arith in ap (λ (n : ℕ). 2 ^ n) e
