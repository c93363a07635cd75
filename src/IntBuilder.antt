-- ===== src/IntBuilder.antt =====
-- crates/als-core/src/encode/int.rs: two's-complement integers as vectors of circuit bits, lowest
-- bit first, and the gates of `IntBuilder` for a width `w`. An index out of range is a panic, the
-- sign bit at width 0 among them. A shift count is taken modulo 64, as a release build does.
pub mod Adder
pub mod Value
pub mod Wrapping
pub mod Signed
pub mod Compare
pub mod Order
pub mod Constants
pub mod Select
pub mod Counter
pub mod Cardinality
pub mod Shifts
mod Tests
use mettle.Base.{
  ℕ, zero, suc, ◌+◌, ◌-◌, ◌*◌, ◌/◌, ◌%◌, ◌^◌, Bool, true, false, List, [], ◌∷◌, ◌++◌, map, none,
  some, Option, if◌then◌else◌, ◌==◌, ltb, leb, length, take, drop, replicate, tabulate, get_or,
}
use mettle.Base.Int.{ℤ, pos, negsuc}
use mettle.Circuit
use mettle.Circuit.{
  CircuitBool, const, lit, M, pure, ◌>>=◌, and_many, or_many, bool_not, and, or, iff, ite,
}

-- The struct has the one field `bits`.
abbrev pub IntVal : Type 0
IntVal = List CircuitBool

abbrev pub fault : {A : Type 0} → M A
fault s = none

-- `(value >> i) & 1 == 1` of an `i64`: the shift drops all but the low 6 bits of `i`, and the bits
-- of -(n + 1) are those of n, inverted.
unfoldable pub bit_of : ℤ → ℕ → Bool
bit_of (pos n) i = n / 2 ^ (i % 64) % 2 == 1
bit_of (negsuc n) i = n / 2 ^ (i % 64) % 2 == 0

unfoldable pub constant : ℤ → ℕ → IntVal
unfolding bit_of
constant v width = tabulate width (λ i. const (bit_of v i))

unfoldable pub full_add : CircuitBool → CircuitBool → CircuitBool → M (CircuitBool × CircuitBool)
full_add a b cin = do
  axb ← Circuit.xor a b
  sum ← Circuit.xor axb cin
  ab ← and a b
  cx ← and cin axb
  carry ← or ab cx
  pure (sum, carry)

unfoldable pub add_bit_loop : List CircuitBool → CircuitBool → M (List CircuitBool × CircuitBool)
add_bit_loop [] carry = pure ([], carry)
add_bit_loop (a ∷ acc) carry = do
  (s, c) ← full_add a (const false) carry
  (out, last) ← add_bit_loop acc c
  pure (s ∷ out, last)

-- The carry is kept unless it is the constant false.
abbrev pub push_carry : List CircuitBool → CircuitBool → List CircuitBool
push_carry out (const false) = out
push_carry out carry = out ++ (carry ∷ [])

unfoldable pub add_bit : List CircuitBool → CircuitBool → M (List CircuitBool)
unfolding add_bit_loop
add_bit acc b = do (out, carry) ← add_bit_loop acc b; pure (push_carry out carry)

-- The loop of `add_signed` and `sub_signed`, with `n` rounds to go: they differ in what is done to
-- the bits of `b`, and in the first carry. The last round notes the carry into the top bit.
unfoldable pub carry_loop :
    (CircuitBool → CircuitBool)
    → ℕ
    → List CircuitBool
    → List CircuitBool
    → CircuitBool
    → CircuitBool
    → M (List CircuitBool × (CircuitBool × CircuitBool))
carry_loop f zero xs ys carry into = pure ([], (carry, into))
carry_loop f (suc n) (a ∷ xs) (b ∷ ys) carry into = do
  (s, c) ← full_add a (f b) carry
  (out, flags) ← carry_loop f n xs ys c (if n == 0 then carry else into)
  pure (s ∷ out, flags)
carry_loop f (suc n) _ _ carry into = fault

unfoldable pub add_signed : ℕ → IntVal → IntVal → M (IntVal × CircuitBool)
unfolding carry_loop
add_signed w a b = do
  (out, flags) ← carry_loop (λ y. y) w a b (const false) (const false)
  overflow ← Circuit.xor flags.1 flags.0
  pure (out, overflow)

unfoldable pub sub_signed : ℕ → IntVal → IntVal → M (IntVal × CircuitBool)
unfolding carry_loop
sub_signed w a b = do
  (out, flags) ← carry_loop bool_not w a b (const true) (const false)
  overflow ← Circuit.xor flags.1 flags.0
  pure (out, overflow)

-- At width 0 the count `width - 1` of skipped bits wraps, and none is left.
unfoldable pub unsigned_to_signed : ℕ → List CircuitBool → M (IntVal × CircuitBool)
unsigned_to_signed zero acc = do overflow ← or_many []; pure ([], overflow)
unsigned_to_signed (suc m) acc = do
  overflow ← or_many (drop m acc)
  pure (tabulate (suc m) (λ i. get_or acc i (const false)), overflow)

unfoldable pub eq_loop : ℕ → List CircuitBool → List CircuitBool → M (List CircuitBool)
eq_loop zero xs ys = pure []
eq_loop (suc n) (a ∷ xs) (b ∷ ys) = do e ← iff a b; parts ← eq_loop n xs ys; pure (e ∷ parts)
eq_loop (suc n) _ _ = fault

unfoldable pub eq : ℕ → IntVal → IntVal → M CircuitBool
unfolding eq_loop
eq w a b = do parts ← eq_loop w a b; and_many parts

-- The borrow out of `a - b`, over the bits of `a`.
unfoldable pub borrow_loop : List CircuitBool → List CircuitBool → CircuitBool → M CircuitBool
borrow_loop [] ys borrow = pure borrow
borrow_loop (a ∷ xs) [] borrow = fault
borrow_loop (a ∷ xs) (b ∷ ys) borrow = do
  nab ← and (bool_not a) b
  nabr ← and (bool_not a) borrow
  bbr ← and b borrow
  next ← or_many (nab ∷ nabr ∷ bbr ∷ [])
  borrow_loop xs ys next

unfoldable pub unsigned_lt : List CircuitBool → List CircuitBool → M CircuitBool
unfolding borrow_loop
unsigned_lt a b = borrow_loop a b (const false)

-- `bits[i] = !bits[i]`
unfoldable pub flip_at : ℕ → List CircuitBool → M (List CircuitBool)
flip_at i [] = fault
flip_at zero (b ∷ bs) = pure (bool_not b ∷ bs)
flip_at (suc i) (b ∷ bs) = do rest ← flip_at i bs; pure (b ∷ rest)

unfoldable pub signed_lt : ℕ → IntVal → IntVal → M CircuitBool
unfolding flip_at unsigned_lt
signed_lt zero a b = fault
signed_lt (suc msb) a b = do af ← flip_at msb a; bf ← flip_at msb b; unsigned_lt af bf

unfoldable pub signed_le : ℕ → IntVal → IntVal → M CircuitBool
unfolding signed_lt
signed_le w a b = do gt ← signed_lt w b a; pure (bool_not gt)

unfoldable pub signed_gt : ℕ → IntVal → IntVal → M CircuitBool
unfolding signed_lt
signed_gt w a b = signed_lt w b a

unfoldable pub signed_ge : ℕ → IntVal → IntVal → M CircuitBool
unfolding signed_lt
signed_ge w a b = do lt ← signed_lt w a b; pure (bool_not lt)

unfoldable pub invert : IntVal → IntVal
invert a = map bool_not a

unfoldable pub negate : ℕ → IntVal → M (IntVal × CircuitBool)
unfolding add_signed invert constant
negate w a = add_signed w (invert a) (constant (pos 1) w)

unfoldable pub negate_value : ℕ → IntVal → M IntVal
unfolding negate
negate_value w a = do (v, overflow) ← negate w a; pure v

unfoldable pub mux : ℕ → CircuitBool → IntVal → IntVal → M IntVal
mux zero c xs ys = pure []
mux (suc n) c (a ∷ xs) (b ∷ ys) = do x ← ite c a b; rest ← mux n c xs ys; pure (x ∷ rest)
mux (suc n) c _ _ = fault

unfoldable pub is_zero : IntVal → M CircuitBool
is_zero a = do anyset ← or_many a; pure (bool_not anyset)

-- The counting loop of `Encoder::int_card` (crates/als-core/src/encode/mod.rs), over the cells.
unfoldable pub count_cells : List CircuitBool → List CircuitBool → M (List CircuitBool)
count_cells acc [] = pure acc
count_cells acc (c ∷ cells) = do next ← add_bit acc c; count_cells next cells

unfoldable pub int_card : ℕ → List CircuitBool → M (IntVal × CircuitBool)
unfolding count_cells
int_card width cells = do acc ← count_cells (const false ∷ []) cells; unsigned_to_signed width acc
