-- ===== src/IntBuilder/Wrapping.antt =====
-- Two's complement: what the result and the overflow flag of an addition say of the exact sum.
use native.Mathlib.Nat.{pow-suc}
use mettle.Base.{
  ℕ, suc, ◌+◌, ◌*◌, ◌^◌, ◌≤◌, ◌<◌, ◌≡◌, refl, arith, Bool, true, false, xor, List, [], ◌∷◌, length,
  digit, Bool-cases, ◌⊎◌, inl, inr,
}
use mettle.Base.Int.{ℤ, pos, negsuc, pos_part, neg_part, ◌+ℤ◌, +ℤ_parts, eq_of_parts}
use mettle.IntBuilder.Adder.{add_digits}
use mettle.IntBuilder.Value.{
  unsigned, top, weight, signed, signed_parts, top_half, Pairs, Pairs-length, add_digits_value,
  add_digits-top, length-add_digits,
}

-- The integers of `m + 1` bits.
abbrev pub InRange : ℕ → ℤ → Type 0
InRange m z = (pos_part z < 2 ^ m) × (neg_part z ≤ 2 ^ m)

-- The digits `out` and the flag `overflow` are those of `z` at `m + 1` bits, where `z` misses the
-- range by less than the range's size.
pub record Wraps (m : ℕ) (z : ℤ) (out : List Bool) (overflow : Bool) : Type 0 where
  pub width : length out ≡ suc m
  pub exact : overflow ≡ false → signed out ≡ z
  pub outside : overflow ≡ true → ¬ InRange m z
  pub wrapped :
      overflow ≡ true → (signed out +ℤ pos (2 ^ suc m) ≡ z) ⊎ (signed out ≡ z +ℤ pos (2 ^ suc m))

pub halves :
    (m : ℕ) (bs : List Bool)
    → length bs ≡ suc m
    → (weight (top bs) (2 ^ m) ≤ unsigned bs) × (unsigned bs < 2 ^ m + weight (top bs) (2 ^ m))
halves m [] h = absurd (omega arith)
halves m (b ∷ bs) h = let e : length bs ≡ m = omega arith in rw (← e) (top_half b bs)

pub signed_at :
    (m : ℕ) (bs : List Bool)
    → length bs ≡ suc m
    → pos_part (signed bs) + weight (top bs) (2 ^ suc m) ≡ neg_part (signed bs) + unsigned bs
signed_at m bs h = rw h at (signed_parts bs)

pub parts_disjoint : (z : ℤ) → (pos_part z ≡ 0) ⊎ (neg_part z ≡ 0)
parts_disjoint (pos n) = inr refl
parts_disjoint (negsuc n) = inl refl

-- The arithmetic of the top digits: `cm` and `co` are the carries into and out of the top.
module _ (m : ℕ) (xs ys out : List Bool) (cm co c : Bool) (z : ℤ) (nx : length xs ≡ suc m)
    (ny : length ys ≡ suc m) (no_ : length out ≡ suc m)
    (value : unsigned out + weight co (2 ^ suc m) ≡ unsigned xs + unsigned ys + digit c)
    (tops : digit cm + digit (top xs) + digit (top ys) ≡ digit (top out) + 2 * digit co)
    (exact_sum : pos_part z + neg_part (signed xs) + neg_part (signed ys)
      ≡ neg_part z + pos_part (signed xs) + pos_part (signed ys) + digit c) where
  -- The exact sum, the result and the two carries.
  balance :
      pos_part (signed out) + neg_part z + weight cm (2 ^ suc m)
      ≡ neg_part (signed out) + pos_part z + weight co (2 ^ suc m)
  balance = ground (arith, signed_at m xs nx, signed_at m ys ny, signed_at m out no_)

  pub sum-Wraps : Wraps m z out (xor cm co)
  sum-Wraps = record {
    width = no_;
    exact = λ h. eq_of_parts (signed out) z (ground (arith, balance));
    outside = λ h r.
        ground
          (arith, pow-suc 2 m, parts_disjoint z, balance, signed_at m out no_, halves m out no_);
    wrapped = λ h. elim (Bool-cases cm) [
      | inl up ↦
          inl (eq_of_parts _ _ (ground (arith, balance, +ℤ_parts (signed out) (pos (2 ^ suc m)))))
      | inr down ↦ inr (eq_of_parts _ _ (ground (arith, balance, +ℤ_parts z (pos (2 ^ suc m)))))
    ];
  }

-- The pure adder on `m + 1` digits with first carry `c`, for an integer that is the exact sum.
pub add_digits-Wraps :
    {m : ℕ} {xs ys : List Bool}
    → Pairs (suc m) xs ys
    → (c into : Bool) (z : ℤ)
    → pos_part z + neg_part (signed xs) + neg_part (signed ys)
      ≡ neg_part z + pos_part (signed xs) + pos_part (signed ys) + digit c
    → let r = add_digits (suc m) xs ys c into in Wraps m z r.0 (xor r.1.1 r.1.0)
add_digits-Wraps {m} {xs} {ys} p c into z exact_sum =
    let r = add_digits (suc m) xs ys c into in
    sum-Wraps m xs ys r.0 r.1.1 r.1.0 c z (Pairs-length p).0 (Pairs-length p).1
      (length-add_digits p c into) (add_digits_value p c into) (add_digits-top p c into) exact_sum
