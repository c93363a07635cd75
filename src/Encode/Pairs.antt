-- ===== src/Encode/Pairs.antt =====
-- The gates of the pairs of cells, and the number of the true ones.
use mettle.Base.{
  ℕ, ◌+◌, ◌≤◌, ◌≡◌, refl, ap, ap₂, ◌∙◌, arith, Bool, true, false, not, ◌&&◌, ◌||◌, ◌==◌, leb, digit,
  List, [], ◌∷◌, ◌++◌, map, length, length-append, all-append, All, All-map, All-append,
}
use mettle.Solve.Models.{Valuation}
use mettle.Circuit
use mettle.Circuit.{CircuitBool, M}
use mettle.Circuit.Conjunction.{every, some_true}
use mettle.Circuit.Model.{
  Denotes, Total, bit, bits, bool_value, IsMintedBool, IsMintedBool-mono, bind-Total, pure-Total,
  cost_le, self-Denotes, later,
}
use mettle.Circuit.Operations.{and_Total, not-Denotes, nil-Denotes, cons-Denotes}
use mettle.Encode.Decide.{MultTest, no, some_, lone, one, not_both, not_two}

-- The number of the bits that are true.
abbrev pub count : List Bool → ℕ
count [] = 0
count (b ∷ bs) = digit b + count bs

abbrev pairs_of : List Bool → List Bool
pairs_of [] = []
pairs_of (b ∷ bs) = map (λ d. not (b && d)) bs ++ pairs_of bs

-- The number of pairs of cells.
abbrev pub pair_count : {A : Type 0} → List A → ℕ
pair_count [] = 0
pair_count (c ∷ cells) = length cells + pair_count cells

append_both :
    {s : Circuit.Circuit} {n m : ℕ} {xs ys : List CircuitBool} {g h : Valuation → List Bool}
    → Denotes (bits n) s xs g
    → Denotes (bits m) s ys h
    → Denotes (bits (n + m)) s (xs ++ ys) (λ ρ. g ρ ++ h ρ)
append_both {s} {n} {m} {xs} {ys} {g} {h} d e = record {
  minted = (
    omega (arith, length-append xs ys, d.minted.0, e.minted.0),
    All-append (IsMintedBool s.cnf.num_vars) xs ys d.minted.1 e.minted.1,
  );
  value = λ ρ m. map-append (bool_value ρ) xs ∙ ap₂ ◌++◌ (d.value ρ m) (e.value ρ m);
}
  where
    map-append :
        (f : CircuitBool → Bool) (cs : List CircuitBool) → map f (cs ++ ys) ≡ (map f cs ++ map f ys)
    map-append f [] = refl
    map-append f (c ∷ cs) = ap (λ rest. f c ∷ rest) (map-append f cs)

pub minted_later :
    (n m : ℕ) (cells : List CircuitBool)
    → n ≤ m
    → All (IsMintedBool n) cells
    → All (IsMintedBool m) cells
minted_later n m cells h k =
    All-map (IsMintedBool n) (IsMintedBool m) cells (λ b. IsMintedBool-mono n m b h) k

not_both-Total :
    (c : CircuitBool) (cells : List CircuitBool) {s : Circuit.Circuit}
    → IsMintedBool s.cnf.num_vars c
    → All (IsMintedBool s.cnf.num_vars) cells
    → Total
        (bits (length cells))
        s
        (length cells)
        (not_both c cells)
        (λ ρ. map (λ d. not (bool_value ρ c && d)) (map (bool_value ρ) cells))
unfolding not_both
not_both-Total c [] h k = pure-Total nil-Denotes
not_both-Total c (d ∷ cells) {s} h k = cost_le (omega arith) (
    bind-Total {j = 1} {k = length cells + 0}
      (and_Total (self-Denotes {x = bit} {s = s} h) (self-Denotes {x = bit} {s = s} k.0))
      (λ both t x db.
        bind-Total {j = length cells} {k = 0}
          (not_both-Total c cells {s = t}
            (IsMintedBool-mono s.cnf.num_vars t.cnf.num_vars c x.grows h)
            (minted_later s.cnf.num_vars t.cnf.num_vars cells x.grows k.1))
          (λ parts u y dp. pure-Total (cons-Denotes (not-Denotes (later y db)) dp))))

pub not_two-Total :
    (cells : List CircuitBool) {s : Circuit.Circuit}
    → All (IsMintedBool s.cnf.num_vars) cells
    → Total
        (bits (pair_count cells))
        s
        (pair_count cells)
        (not_two cells)
        (λ ρ. pairs_of (map (bool_value ρ) cells))
unfolding not_two
not_two-Total [] h = pure-Total nil-Denotes
not_two-Total (c ∷ cells) {s} h = cost_le (omega arith) (
    bind-Total {j = length cells} {k = pair_count cells + 0}
      (not_both-Total c cells {s = s} h.0 h.1)
      (λ row t x dr.
        bind-Total {j = pair_count cells} {k = 0}
          (not_two-Total cells {s = t}
            (minted_later s.cnf.num_vars t.cnf.num_vars cells x.grows h.1))
          (λ parts u y dp. pure-Total (append_both (later y dr) dp))))

none_with :
    (b : Bool) (bs : List Bool) → every (map (λ d. not (b && d)) bs) ≡ (not b || (count bs == 0))
none_with b [] = ground arith
none_with b (c ∷ bs) = ground (arith, none_with b bs)

pub pairs_lem : (bs : List Bool) → every (pairs_of bs) ≡ leb (count bs) 1
pairs_lem [] = refl
pairs_lem (b ∷ bs) =
    all-append (map (λ d. not (b && d)) bs) (pairs_of bs) (λ x. x)
    ∙ (ap₂ ◌&&◌ (none_with b bs) (pairs_lem bs) ∙ step b (count bs))
  where
    step : (c : Bool) (n : ℕ) → ((not c || (n == 0)) && leb n 1) ≡ leb (digit c + n) 1
    step true n = ground arith
    step false n = ground arith

pub some_lem : (bs : List Bool) → some_true bs ≡ leb 1 (count bs)
some_lem [] = refl
some_lem (true ∷ bs) = ground arith
some_lem (false ∷ bs) = some_lem bs ∙ ground arith

-- What a multiplicity says of the number of tuples.
abbrev pub allows : MultTest → ℕ → Bool
allows no n = n == 0
allows some_ n = leb 1 n
allows lone n = leb n 1
allows one n = n == 1
