-- ===== src/IntBuilder/Cardinality.antt =====
-- `int_card` of crates/als-core/src/encode/mod.rs, and `unsigned_to_signed`.
use native.Mathlib.Nat.{pow-suc}
use mettle.Base.{
  ℕ, zero, suc, ◌+◌, ◌*◌, ◌^◌, ◌≤◌, ◌<◌, ◌≡◌, refl, ap, fun_ext, ◌∙◌, arith, Bool, true, false,
  List, [], ◌∷◌, map, length, All, All-map, tabulate, get_or, drop, digit, ◌↔◌,
}
use mettle.Base.Int.{pos, eq_of_parts}
use mettle.Solve.Models.{Valuation}
use mettle.Circuit
use mettle.Circuit.{CircuitBool, const, lit, bool_not, ◌>>=◌}
use mettle.Circuit.Conjunction.{some_true}
use mettle.Circuit.Model.{
  Ready, Total, bit, bits, both, bool_value, IsMintedBool, IsMintedBool-mono, same-Total,
  self-Denotes, pure-Total, bind-Total, later, cost_le, pair,
}
use mettle.Circuit.Operations.{or_many-Total}
use mettle.Circuit.Yields.{Yields, total-Yields, bind_Yields}
use mettle.IntBuilder.{count_cells, int_card, unsigned_to_signed}
use mettle.IntBuilder.Value.{unsigned, signed}
use mettle.IntBuilder.Wrapping.{signed_at, halves}
use mettle.IntBuilder.Select.{some_true_iff}
use mettle.IntBuilder.Constants.{length-tabulate, map-tabulate, All-tabulate}
use mettle.IntBuilder.Counter.{number, add_bit-Total, padded, drop-nil}

drop-false :
    (m : ℕ) (xs : List Bool)
    → some_true (drop m xs) ≡ false
    → (unsigned xs < 2 ^ m) × (unsigned (padded (suc m) xs) ≡ unsigned xs)
drop-false zero [] h = ground arith
drop-false zero (x ∷ xs) h = ground (arith, some_true_iff xs)
drop-false (suc m) [] h = ground (arith, drop-false m [] (drop-nil m), pow-suc 2 m)
drop-false (suc m) (x ∷ xs) h = ground (arith, drop-false m xs, pow-suc 2 m)

drop-true : (m : ℕ) (xs : List Bool) → some_true (drop m xs) ≡ true → 2 ^ m ≤ unsigned xs
drop-true zero xs h = ground (arith, some_true_iff xs)
drop-true (suc m) [] h = absurd (cc h)
drop-true (suc m) (x ∷ xs) h = ground (arith, drop-true m xs, pow-suc 2 m)

-- A count as a signed value: the flag is set exactly when the count is past the largest integer,
-- and otherwise the digits are those of the count.
pub record Counts (m n : ℕ) (out : List Bool) (overflow : Bool) : Type 0 where
  pub exact : overflow ≡ false → signed out ≡ pos n
  pub flag : (overflow ≡ true) ↔ (2 ^ m ≤ n)

drop-Counts :
    (m : ℕ) (xs : List Bool) → Counts m (unsigned xs) (padded (suc m) xs) (some_true (drop m xs))
drop-Counts m xs =
    let n : length (padded (suc m) xs) ≡ suc m = length-tabulate (suc m) (λ i. get_or xs i false) in
    record {
      exact = λ h. eq_of_parts (signed (padded (suc m) xs)) (pos (unsigned xs)) (
          ground (
            arith,
            drop-false m xs h,
            signed_at m (padded (suc m) xs) n,
            halves m (padded (suc m) xs) n,
            pow-suc 2 m,
          ));
      flag = (drop-true m xs, λ h. ground (arith, drop-false m xs));
    }

pub get_or-map :
    (ρ : Valuation) (bs : List CircuitBool) (i : ℕ)
    → bool_value ρ (get_or bs i (const false)) ≡ get_or (map (bool_value ρ) bs) i false
get_or-map ρ [] i = refl
get_or-map ρ (b ∷ bs) zero = refl
get_or-map ρ (b ∷ bs) (suc i) = get_or-map ρ bs i

pub get_or-minted :
    (n : ℕ) (bs : List CircuitBool) (i : ℕ)
    → All (IsMintedBool n) bs
    → IsMintedBool n (get_or bs i (const false))
get_or-minted n [] i h = tt
get_or-minted n (b ∷ bs) zero h = h.0
get_or-minted n (b ∷ bs) (suc i) h = get_or-minted n bs i h.1

map-drop :
    (ρ : Valuation) (m : ℕ) (bs : List CircuitBool)
    → map (bool_value ρ) (drop m bs) ≡ drop m (map (bool_value ρ) bs)
map-drop ρ zero bs = refl
map-drop ρ (suc m) [] = refl
map-drop ρ (suc m) (b ∷ bs) = map-drop ρ m bs

drop-minted :
    (n m : ℕ) (bs : List CircuitBool) → All (IsMintedBool n) bs → All (IsMintedBool n) (drop m bs)
drop-minted n zero bs h = h
drop-minted n (suc m) [] h = tt
drop-minted n (suc m) (b ∷ bs) h = drop-minted n m bs h.1

unsigned_to_signed-Total :
    (m : ℕ) {s : Circuit.Circuit} (acc : List CircuitBool)
    → All (IsMintedBool s.cnf.num_vars) acc
    → Total (both (bits (suc m)) bit) s 1 (unsigned_to_signed (suc m) acc) (λ ρ.
      (padded (suc m) (map (bool_value ρ) acc), some_true (drop m (map (bool_value ρ) acc))))
unfolding unsigned_to_signed
unsigned_to_signed-Total m {s} acc h = cost_le (omega arith) (
    bind-Total
      (or_many-Total (record {
        minted = (refl, drop-minted s.cnf.num_vars m acc h);
        value = λ ρ i. map-drop ρ m acc;
      }))
      λ o t e d. pure-Total (
        pair
          (later e (record {
            minted = (
              length-tabulate (suc m) (λ i. get_or acc i (const false)),
              All-tabulate (IsMintedBool s.cnf.num_vars) (suc m) (λ i. get_or acc i (const false))
                  (λ i. get_or-minted s.cnf.num_vars acc i h),
            );
            value = λ ρ i.
                map-tabulate (bool_value ρ) (suc m) (λ i. get_or acc i (const false))
                ∙ ap (tabulate (suc m)) (fun_ext (λ i. get_or-map ρ acc i));
          }))
          d))

abbrev pub count_true : List Bool → ℕ
count_true [] = 0
count_true (b ∷ bs) = digit b + count_true bs

-- The variables that counting `n` bits may take, from an accumulator of at most `w` bits.
abbrev pub count_cost : ℕ → ℕ → ℕ
count_cost w zero = 0
count_cost w (suc n) = w * 9 + count_cost (suc w) n

count_cells-Total :
    (cells : List CircuitBool) (w v : ℕ) {s : Circuit.Circuit} (acc : List CircuitBool)
    → w + length cells ≤ v
    → (number w).minted s.cnf.num_vars acc
    → All (IsMintedBool s.cnf.num_vars) cells
    → Total
        (number v)
        s
        (count_cost w (length cells))
        (count_cells acc cells)
        (λ ρ. unsigned (map (bool_value ρ) acc) + count_true (map (bool_value ρ) cells))
unfolding count_cells
count_cells-Total [] w v acc q h k =
    same-Total (λ ρ m. omega arith)
      (pure-Total (record { minted = (omega (arith, h.0), h.1); value = λ ρ m. refl }))
count_cells-Total (c ∷ cells) w v {s} acc q h k =
    bind-Total (add_bit-Total w acc h (self-Denotes {x = bit} {s = s} k.0)) λ next t e d.
      same-Total (λ ρ m. omega (arith, d.value ρ m))
        (count_cells-Total cells (suc w) v next (omega arith) d.minted (
          All-map (IsMintedBool s.cnf.num_vars) (IsMintedBool t.cnf.num_vars) cells
            (λ b. IsMintedBool-mono s.cnf.num_vars t.cnf.num_vars b e.grows) k.1))

-- Over any list of minted cells, in a well-formed state with room for the counter's variables,
-- int_card returns m + 1 bits and a flag; in every model the flag is set exactly when the number
-- of true cells is 2^m or more, and otherwise the bits stand for that number.
pub int_card-Counts :
    (m : ℕ) (cells : List CircuitBool) {s : Circuit.Circuit}
    → All (IsMintedBool s.cnf.num_vars) cells
    → Ready (count_cost 1 (length cells) + 1) s
    → Yields
        (both (bits (suc m)) bit)
        s
        (count_cost 1 (length cells) + 1)
        (int_card (suc m) cells)
        (λ ρ r. Counts m (count_true (map (bool_value ρ) cells)) r.0 r.1)
unfolding int_card
int_card-Counts m cells k =
    bind_Yields
      (count_cells-Total cells 1 (1 + length cells) (const false ∷ []) (omega arith)
        (omega arith, (tt, tt)) k)
      λ acc t e d.
        total-Yields (λ ρ r. Counts m (count_true (map (bool_value ρ) cells)) r.0 r.1)
          (λ ρ i.
            let n : unsigned (map (bool_value ρ) acc) ≡ count_true (map (bool_value ρ) cells) =
              omega (arith, d.value ρ i) in
            rw n at (drop-Counts m (map (bool_value ρ) acc)))
          (unsigned_to_signed-Total m acc d.minted.1)
