-- ===== src/IntBuilder/Shifts/Right.antt =====
-- `shr` divides by a power of two.
use native.Mathlib.Nat.{pow-suc}
use mettle.Base.{
  ap₂, All-map, ℕ, zero, suc, ◌+◌, ◌-◌, ◌*◌, ◌/◌, ◌%◌, ◌^◌, ◌≤◌, ◌≡◌, refl, sym, ap, fun_ext, ◌∙◌,
  arith, Bool, true, false, Bool-cases, List, [], ◌∷◌, map, length, length-map, All, tabulate,
  get_or, take, if◌then◌else◌, ltb, ◌==◌, inl, inr,
}
use mettle.Solve.Models.{Valuation}
use mettle.Circuit
use mettle.Circuit.{CircuitBool, const}
use mettle.Circuit.Model.{
  Ready, Total, Denotes, bit, bits, bool_value, IsMintedBool, same-Total, IsMintedBool-mono,
  self-Denotes, pure-Total, bind-Total, cost_le,
}
use mettle.Circuit.Yields.{Yields, total-Yields}
use mettle.IntBuilder.{IntVal}
use mettle.IntBuilder.Value.{unsigned, unsigned-lt}
use mettle.IntBuilder.Signed.{IsInt}
use mettle.IntBuilder.Constants.{
  length-tabulate, map-tabulate, All-tabulate, shift_suc, unsigned-digits,
}
use mettle.IntBuilder.Select.{mux-Total}
use mettle.IntBuilder.Cardinality.{get_or-map, get_or-minted}
use mettle.IntBuilder.Shifts.Mask.{IsCeilLog, shift_mask_width-IsCeilLog}
use mettle.IntBuilder.Shifts.{
  bit_length, shift_mask_width, shift_right_bits, shift_right_loop, shift_right, shr,
}

-- The digits of `xs`, moved down.
abbrev moved : List Bool → ℕ → ℕ → List Bool
moved xs sh w = tabulate w (λ k. if ltb (k + sh) w then get_or xs (k + sh) false else false)

zero_shift : (j : ℕ) → 0 / 2 ^ j ≡ 0
zero_shift zero = refl
zero_shift (suc j) = shift_suc 0 j ∙ zero_shift j

shift-le : (n j : ℕ) → n / 2 ^ j ≤ n
shift-le n zero = omega arith
shift-le n (suc j) = omega (arith, shift_suc n j, shift-le (n / 2) j)

get_or-digit : (xs : List Bool) (j : ℕ) → get_or xs j false ≡ (unsigned xs / 2 ^ j % 2 == 1)
get_or-digit [] j = ground (arith, zero_shift j)
get_or-digit (b ∷ xs) zero = ground arith
get_or-digit (b ∷ xs) (suc j) =
    get_or-digit xs j
    ∙ ap (λ (n : ℕ). n % 2 == 1)
        (ap (λ n. n / 2 ^ j) (half b) ∙ sym (shift_suc (unsigned (b ∷ xs)) j))
  where
    half : (c : Bool) → unsigned xs ≡ unsigned (c ∷ xs) / 2
    half c = ground arith

get_or-past : (xs : List Bool) (j : ℕ) → length xs ≤ j → get_or xs j false ≡ false
get_or-past [] j h = refl
get_or-past (b ∷ xs) zero h = absurd (omega arith)
get_or-past (b ∷ xs) (suc j) h = get_or-past xs j (omega arith)

shift_add : (n k sh : ℕ) → n / 2 ^ (k + sh) ≡ n / 2 ^ sh / 2 ^ k
shift_add n k zero = ap (λ m. n / 2 ^ m) (omega arith) ∙ ap (λ m. m / 2 ^ k) (omega arith)
shift_add n k (suc sh) =
    ap (λ m. n / 2 ^ m) (omega arith)
    ∙ (shift_suc n (k + sh) ∙ (shift_add (n / 2) k sh ∙ ap (λ m. m / 2 ^ k) (sym (shift_suc n sh))))

unsigned-moved :
    (xs : List Bool) (sh w : ℕ) → length xs ≡ w → unsigned (moved xs sh w) ≡ unsigned xs / 2 ^ sh
unsigned-moved xs sh w h =
    ap (λ f. unsigned (tabulate w f)) (fun_ext digits)
    ∙ unsigned-digits w (unsigned xs / 2 ^ sh)
        (omega (arith, shift-le (unsigned xs) sh, unsigned-lt xs, ap (λ (n : ℕ). 2 ^ n) h))
  where
    digits :
        (k : ℕ)
        → (if ltb (k + sh) w then get_or xs (k + sh) false else false)
          ≡ (unsigned xs / 2 ^ sh / 2 ^ k % 2 == 1)
    digits k = elim (Bool-cases (ltb (k + sh) w)) [
      | inl e ↦
          rw e
            (get_or-digit xs (k + sh) ∙ ap (λ (n : ℕ). n % 2 == 1) (shift_add (unsigned xs) k sh))
      | inr e ↦ rw e (
          sym (get_or-past xs (k + sh) (ground arith))
          ∙ (get_or-digit xs (k + sh) ∙ ap (λ (n : ℕ). n % 2 == 1) (shift_add (unsigned xs) k sh)))
    ]

-- What the loop makes of the digits.
abbrev moved_by : ℕ → ℕ → ℕ → List Bool → List Bool → List Bool
moved_by w zero i amount xs = xs
moved_by w (suc n) i [] xs = xs
moved_by w (suc n) i (c ∷ amount) xs =
    moved_by w n (i + 1) amount (if c then moved xs (2 ^ i) w else xs)

pow_next : (i : ℕ) → 2 ^ (i + 1) ≡ 2 ^ i * 2
pow_next i = let e : i + 1 ≡ suc i = omega arith in ap (λ (m : ℕ). 2 ^ m) e ∙ pow-suc 2 i

exponent : (i r : ℕ) → 2 ^ (i + 1) * r ≡ 2 ^ i * (0 + 2 * r)
exponent i r = ap (λ p. p * r) (pow_next i) ∙ omega arith

exponent_one : (i r : ℕ) → 2 ^ (i + 1) * r + 2 ^ i ≡ 2 ^ i * (1 + 2 * r)
exponent_one i r = ap (λ p. p * r + 2 ^ i) (pow_next i) ∙ omega arith

unsigned-moved_by :
    (w n i : ℕ) (amount xs : List Bool)
    → n ≤ length amount
    → length xs ≡ w
    → unsigned (moved_by w n i amount xs) ≡ unsigned xs / 2 ^ (2 ^ i * unsigned (take n amount))
unsigned-moved_by w zero i amount xs g h =
    let none_moved : 2 ^ i * 0 ≡ 0 = omega arith in
    omega arith ∙ ap (λ m. unsigned xs / 2 ^ m) (sym none_moved)
unsigned-moved_by w (suc n) i [] xs g h = absurd (omega arith)
unsigned-moved_by w (suc n) i (false ∷ amount) xs g h =
    unsigned-moved_by w n (i + 1) amount xs (omega arith) h
    ∙ ap (λ m. unsigned xs / 2 ^ m) (exponent i (unsigned (take n amount)))
unsigned-moved_by w (suc n) i (true ∷ amount) xs g h =
    unsigned-moved_by w n (i + 1) amount (moved xs (2 ^ i) w) (omega arith) (length-tabulate w _)
    ∙ (ap (λ u. u / 2 ^ (2 ^ (i + 1) * unsigned (take n amount))) (unsigned-moved xs (2 ^ i) w h)
        ∙ (sym (shift_add (unsigned xs) (2 ^ (i + 1) * unsigned (take n amount)) (2 ^ i))
            ∙ ap (λ m. unsigned xs / 2 ^ m) (exponent_one i (unsigned (take n amount)))))

shift_right_bits-Denotes :
    (w sh : ℕ) {s : Circuit.Circuit} {a : List CircuitBool} {g : Valuation → List Bool}
    → Denotes (bits w) s a g
    → Denotes (bits w) s (shift_right_bits a sh w (const false)) (λ ρ. moved (g ρ) sh w)
unfolding shift_right_bits
shift_right_bits-Denotes w sh {s} {a} {g} d = record {
  minted = (
    length-tabulate w _,
    All-tabulate (IsMintedBool s.cnf.num_vars) w
        (λ k. if ltb (k + sh) w then get_or a (k + sh) (const false) else const false)
        (λ k. chosen-IsMinted (ltb (k + sh) w) (k + sh)),
  );
  value = λ ρ m.
      map-tabulate (bool_value ρ) w
        (λ k. if ltb (k + sh) w then get_or a (k + sh) (const false) else const false)
      ∙ (ap (tabulate w) (fun_ext (λ k. chosen ρ (ltb (k + sh) w) (k + sh)))
          ∙ ap (λ xs. moved xs sh w) (d.value ρ m));
}
  where
    chosen-IsMinted :
        (b : Bool) (j : ℕ)
        → IsMintedBool s.cnf.num_vars (if b then get_or a j (const false) else const false)
    chosen-IsMinted true j = get_or-minted s.cnf.num_vars a j d.minted.1
    chosen-IsMinted false j = tt

    chosen :
        (ρ : Valuation) (b : Bool) (j : ℕ)
        → bool_value ρ (if b then get_or a j (const false) else const false)
          ≡ (if b then get_or (map (bool_value ρ) a) j false else false)
    chosen ρ true j = get_or-map ρ a j
    chosen ρ false j = refl

shift_right_loop-Total :
    (w n i : ℕ) {s : Circuit.Circuit} (amount a : List CircuitBool) {g : Valuation → List Bool}
    → n ≤ length amount
    → All (IsMintedBool s.cnf.num_vars) amount
    → Denotes (bits w) s a g
    → Total
        (bits w)
        s
        (n * (w * 3))
        (shift_right_loop w (const false) n i amount a)
        (λ ρ. moved_by w n i (map (bool_value ρ) amount) (g ρ))
unfolding shift_right_loop
shift_right_loop-Total w zero i amount a q h d = cost_le (omega arith) (pure-Total d)
shift_right_loop-Total w (suc n) i [] a q h d = absurd (omega arith)
shift_right_loop-Total w (suc n) i {s} (c ∷ amount) a {g} q h d =
    let down = shift_right_bits-Denotes w (2 ^ i) d in
    cost_le (omega arith) (
      bind-Total
        (same-Total {h = λ ρ. if bool_value ρ c then moved (g ρ) (2 ^ i) w else g ρ}
          (λ ρ m. ap₂ (λ xs ys. if bool_value ρ c then xs else ys) (down.value ρ m) (d.value ρ m))
          (mux-Total w c (shift_right_bits a (2 ^ i) w (const false)) a
            (self-Denotes {x = bit} {s = s} h.0) down.minted d.minted))
        λ next t e dn.
          shift_right_loop-Total w n (i + 1) amount next (omega arith)
            (All-map (IsMintedBool s.cnf.num_vars) (IsMintedBool t.cnf.num_vars) amount
              (λ b. IsMintedBool-mono s.cnf.num_vars t.cnf.num_vars b e.grows) h.1)
            dn)

bit_length-le : (fuel n : ℕ) → bit_length fuel n ≤ fuel
unfolding bit_length
bit_length-le zero n = omega arith
bit_length-le (suc fuel) n = ground (arith, bit_length-le fuel (n / 2))

shift_mask_width-le : (w : ℕ) → shift_mask_width w ≤ w
unfolding shift_mask_width
shift_mask_width-le w = ground (arith, bit_length-le (w - 1) (w - 1))

map-take :
    (ρ : Valuation) (n : ℕ) (bs : List CircuitBool)
    → map (bool_value ρ) (take n bs) ≡ take n (map (bool_value ρ) bs)
map-take ρ zero bs = refl
map-take ρ (suc n) [] = refl
map-take ρ (suc n) (b ∷ bs) = ap (λ l. bool_value ρ b ∷ l) (map-take ρ n bs)

-- For two vectors of w minted bits, in a well-formed state with room for the selections'
-- variables, shr returns, and in every model the unsigned value of its bits is that of the first
-- vector divided by 2 to the power of the value of the low bits of the second that
-- shift_mask_width selects; their number is the least whose power of 2 is at least w.
pub shr_lem :
    (w : ℕ) (a b : IntVal) {s : Circuit.Circuit}
    → IsInt s w a
    → IsInt s w b
    → Ready (shift_mask_width w * (w * 3)) s
    → IsCeilLog w (shift_mask_width w)
      × Yields (bits w) s (shift_mask_width w * (w * 3)) (shr w a b) (λ ρ r.
        unsigned r
        ≡ unsigned (map (bool_value ρ) a)
          / 2 ^ unsigned (map (bool_value ρ) (take (shift_mask_width w) b)))
unfolding shr shift_right
shr_lem w a b {s} ha hb ready = (
  shift_mask_width-IsCeilLog w,
  total-Yields
      (λ ρ r.
        unsigned r
        ≡ unsigned (map (bool_value ρ) a)
          / 2 ^ unsigned (map (bool_value ρ) (take (shift_mask_width w) b)))
      (λ ρ _.
        unsigned-moved_by w (shift_mask_width w) 0 (map (bool_value ρ) b) (map (bool_value ρ) a)
          (omega (arith, shift_mask_width-le w, length-map b (bool_value ρ), hb.0))
          (length-map a (bool_value ρ) ∙ ha.0)
        ∙ ap (λ m. unsigned (map (bool_value ρ) a) / 2 ^ m)
            (omega (arith, ap unsigned (map-take ρ (shift_mask_width w) b))))
      (shift_right_loop-Total w (shift_mask_width w) 0 b a
        (omega (arith, shift_mask_width-le w, hb.0)) hb.1 (self-Denotes {s = s} ha))
      ready,
)
