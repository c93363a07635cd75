-- ===== src/Encode/Square.antt =====
-- crates/als-core/src/encode/mod.rs: the transitive closure by iterated squaring.
use mettle.Base.{ℕ, zero, suc, ◌-◌, ◌/◌, if◌then◌else◌, ◌==◌, ltb, leb, List, [], ◌∷◌, length}
use mettle.Circuit.{CircuitBool, M, pure, ◌>>=◌}
use mettle.Bounds.{AtomId, Tuple}
use mettle.Matrix.{Matrix}
use mettle.Encode.{join, union}

-- The distinct atoms of the tuples: `BTreeSet` of them.
unfoldable pub insert_atom : AtomId → List AtomId → List AtomId
insert_atom x [] = x ∷ []
insert_atom x (y ∷ atoms) =
    let rest = insert_atom x atoms in
    if x == y then y ∷ atoms else if ltb x y then x ∷ y ∷ atoms else y ∷ rest

unfoldable pub insert_atoms : List AtomId → Tuple → List AtomId
unfolding insert_atom
insert_atoms atoms [] = atoms
insert_atoms atoms (x ∷ t) = insert_atoms (insert_atom x atoms) t

unfoldable pub support_from : List AtomId → List (Tuple × CircuitBool) → List AtomId
unfolding insert_atoms
support_from atoms [] = atoms
support_from atoms ((t, v) ∷ cells) = support_from (insert_atoms atoms t) cells

unfoldable pub support_size : Matrix → ℕ
unfolding support_from
support_size m = length (support_from [] m.cells)

-- `BITS - (n - 1).leading_zeros()`: the number of binary digits of `n - 1`, at most `fuel`.
unfoldable pub digit_count : ℕ → ℕ → ℕ
digit_count zero n = 0
digit_count (suc fuel) n = let rest = digit_count fuel (n / 2) in if n == 0 then 0 else suc rest

unfoldable pub log2_ceil : ℕ → ℕ
unfolding digit_count
log2_ceil n = if leb n 1 then 0 else digit_count 64 (n - 1)

-- The rounds of squaring.
unfoldable pub square : ℕ → Matrix → M Matrix
unfolding join union
square zero m = pure m
square (suc rounds) m = do sq ← join m m; next ← union m sq; square rounds next

unfoldable pub closure : Matrix → M Matrix
unfolding square support_size log2_ceil
closure r = square (log2_ceil (support_size r)) r
