-- ===== src/IntBuilder/Counter.antt =====
-- `add_bit` of crates/als-core/src/encode/int.rs: one more bit on a vector that counts.
use mettle.Base.{
  ℕ, zero, suc, ◌+◌, ◌*◌, ◌^◌, ◌≤◌, ◌≡◌, refl, sym, ap, ap₂, ◌∙◌, arith, Bool, true, false, List,
  [], ◌∷◌, ◌++◌, map, length, length-map, length-append, All, All-map, All-append, tabulate, get_or,
  drop, digit,
}
use mettle.Solve.Models.{Valuation}
use mettle.Circuit
use mettle.Circuit.{CircuitBool, const, lit, bool_not, ◌>>=◌}
use mettle.Circuit.Conjunction.{some_true}
use mettle.Circuit.Model.{
  Total, Denotes, Shape, bit, bits, both, bool_value, IsMintedBool, IsMintedBool-mono, self-Denotes,
  pure-Total, bind-Total, later, cost_le, pair, first, second,
}
use mettle.Circuit.Operations.{const-Denotes, cons-Denotes, nil-Denotes}
use mettle.IntBuilder.{add_bit, add_bit_loop, push_carry}
use mettle.IntBuilder.Adder.{full_add-Total, tail_minted, sum_digit, carry_digit}
use mettle.IntBuilder.Value.{unsigned, weight, weight-pow}

-- Increment: the digits and the carry out.
abbrev pub count_digits : List Bool → Bool → List Bool × Bool
count_digits [] c = ([], c)
count_digits (x ∷ xs) c =
    let r = count_digits xs (carry_digit x false c) in (sum_digit x false c ∷ r.0, r.1)

count_digits_value :
    (xs : List Bool) (c : Bool)
    → (unsigned (count_digits xs c).0 + weight (count_digits xs c).1 (2 ^ length xs)
        ≡ unsigned xs + digit c)
      × (length (count_digits xs c).0 ≡ length xs)
count_digits_value [] c = ground arith
count_digits_value (x ∷ xs) c =
    let next = carry_digit x false c in
    let rest = count_digits_value xs next in
    (ground (arith, rest.0, weight-pow (count_digits xs next).1 (length xs)), ap suc rest.1)

add_bit_loop-Total :
    (n : ℕ) {s : Circuit.Circuit} (xs : List CircuitBool) {c : CircuitBool} {g : Valuation → Bool}
    → (bits n).minted s.cnf.num_vars xs
    → Denotes bit s c g
    → Total
        (both (bits n) bit)
        s
        (n * 9)
        (add_bit_loop xs c)
        (λ ρ. count_digits (map (bool_value ρ) xs) (g ρ))
unfolding add_bit_loop
add_bit_loop-Total zero [] h d = pure-Total (pair nil-Denotes d)
add_bit_loop-Total zero (a ∷ xs) h d = absurd (omega (arith, h.0))
add_bit_loop-Total (suc n) [] h d = absurd (omega (arith, h.0))
add_bit_loop-Total (suc n) {s} (a ∷ xs) {c} h d = cost_le (omega arith) (
    bind-Total
      (full_add-Total a (const false) c (self-Denotes {x = bit} {s = s} h.1.0) (const-Denotes false)
        d)
      λ r t e dr.
        bind-Total (add_bit_loop-Total n xs (tail_minted a xs e h) (second bit bit dr)) λ q u f dq.
          pure-Total (
            pair (cons-Denotes (later f (first bit bit dr)) (first (bits n) bit dq))
              (second (bits n) bit dq)))

-- A vector of at most `w` bits, for the number that it stands for.
abbrev pub number : ℕ → Shape (List CircuitBool) ℕ
number w = record {
  minted = λ n bs. (length bs ≤ w) × All (IsMintedBool n) bs;
  eval = λ ρ bs. unsigned (map (bool_value ρ) bs);
  mono = λ n m bs h k.
      (k.0, All-map (IsMintedBool n) (IsMintedBool m) bs (λ b. IsMintedBool-mono n m b h) k.1);
}

unsigned-snoc :
    (ρ : Valuation) (out : List CircuitBool) (c : CircuitBool)
    → unsigned (map (bool_value ρ) (out ++ (c ∷ [])))
      ≡ unsigned (map (bool_value ρ) out) + weight (bool_value ρ c) (2 ^ length out)
unsigned-snoc ρ [] c = ground arith
unsigned-snoc ρ (o ∷ out) c =
    ground (arith, unsigned-snoc ρ out c, weight-pow (bool_value ρ c) (length out))

unsigned-push_carry :
    (ρ : Valuation) (out : List CircuitBool) (c : CircuitBool)
    → unsigned (map (bool_value ρ) (push_carry out c))
      ≡ unsigned (map (bool_value ρ) out) + weight (bool_value ρ c) (2 ^ length out)
unsigned-push_carry ρ out (const true) = unsigned-snoc ρ out (const true)
unsigned-push_carry ρ out (const false) = omega arith
unsigned-push_carry ρ out (lit l) = unsigned-snoc ρ out (lit l)

push_carry-minted :
    (n : ℕ) (out : List CircuitBool) (c : CircuitBool)
    → All (IsMintedBool n) out
    → IsMintedBool n c
    → (length (push_carry out c) ≤ suc (length out)) × All (IsMintedBool n) (push_carry out c)
push_carry-minted n out (const true) h k = (
  omega (arith, length-append out (const true ∷ [])),
  All-append (IsMintedBool n) out (const true ∷ []) h (k, tt),
)
push_carry-minted n out (const false) h k = (omega arith, h)
push_carry-minted n out (lit l) h k = (
  omega (arith, length-append out (lit l ∷ [])),
  All-append (IsMintedBool n) out (lit l ∷ []) h (k, tt),
)

-- `add_bit` counts: the number grows by the bit, and the width by one at most.
pub add_bit-Total :
    (w : ℕ) {s : Circuit.Circuit} (acc : List CircuitBool) {b : CircuitBool} {g : Valuation → Bool}
    → (number w).minted s.cnf.num_vars acc
    → Denotes bit s b g
    → Total
        (number (suc w))
        s
        (w * 9)
        (add_bit acc b)
        (λ ρ. unsigned (map (bool_value ρ) acc) + digit (g ρ))
unfolding add_bit
add_bit-Total w acc {b} {g} h d = cost_le (omega (arith, h.0)) (
    bind-Total (add_bit_loop-Total (length acc) acc (refl, h.1) d) λ r t e dr. pure-Total (record {
      minted =
          let m = push_carry-minted t.cnf.num_vars r.0 r.1 dr.minted.0.1 dr.minted.1 in
          (omega (arith, m.0, dr.minted.0.0, h.0), m.1);
      value = λ ρ m.
          unsigned-push_carry ρ r.0 r.1
          ∙ ap₂ (λ (ds : List Bool) (k : ℕ). unsigned ds + k) (ap (λ q. q.0) (dr.value ρ m))
              (ap₂ (λ (c : Bool) (k : ℕ). weight c (2 ^ k)) (ap (λ q. q.1) (dr.value ρ m))
                (dr.minted.0.0 ∙ sym (length-map acc (bool_value ρ))))
          ∙ (count_digits_value (map (bool_value ρ) acc) (g ρ)).0;
    }))

-- The low digits of a list, padded with zeros, and whether a digit stands above them.
abbrev pub padded : ℕ → List Bool → List Bool
padded n xs = tabulate n (λ i. get_or xs i false)

pub drop-nil : (m : ℕ) → some_true (drop m []) ≡ false
drop-nil zero = refl
drop-nil (suc m) = refl
