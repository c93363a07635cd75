-- ===== src/Circuit.antt =====
-- crates/als-core/src/encode/circuit.rs: boolean gates over a CNF (Tseitin), with constant folding
-- and a structural gate cache. A gate constructor is a function of the builder's state; `none` is
-- a panic (the variable pool is full, or a clause names a variable that was never minted).
pub mod Canonical
pub mod Model
pub mod Cache
pub mod Define
pub mod Gate
pub mod Conjunction
pub mod Operations
pub mod Yields
pub mod Members
pub mod Sharing
pub mod Contracts
pub mod Tests
use mettle.Base.{
  ℕ, zero, suc, ◌+◌, ◌%◌, ◌^◌, ◌≡◌, Bool, true, false, not, ◌&&◌, ◌||◌, if◌then◌else◌, ◌==◌, ltb,
  leb, List, [], ◌∷◌, ◌++◌, map, Option, none, some, length,
}
use mettle.Solve.{Var, Lit, Cnf, positive, lit_not, fresh_var, add_clause}

-- `Bool` of the source: a constant or a literal.
pub data CircuitBool : Type 0 where
  const : Bool → CircuitBool
  lit : Lit → CircuitBool

-- `BTreeMap<Vec<Lit>, Lit>`, which is read and extended by key only.
abbrev pub GateCache : Type 0
GateCache = List (List Lit × Lit)

pub record Circuit : Type 0 where
  pub cnf : Cnf
  pub ops : ℕ
  pub gates : GateCache

-- The methods of `&mut Circuit`.
abbrev pub M : Type 0 → Type 0
M A = Circuit → Option (A × Circuit)

abbrev pub pure : {A : Type 0} → A → M A
pure a s = some (a, s)

abbrev pub bind_at : {A B : Type 0} → Option (A × Circuit) → (A → M B) → Option (B × Circuit)
bind_at none f = none
bind_at (some (a, s)) f = f a s

infixl 5 ◌>>=◌
abbrev pub ◌>>=◌ : {A B : Type 0} → M A → (A → M B) → M B
◌>>=◌ m f s = bind_at (m s) f

-- Equality of operand lists.
unfoldable pub same_key : List Lit → List Lit → Bool
same_key [] [] = true
same_key [] (y ∷ ys) = false
same_key (x ∷ xs) [] = false
same_key (x ∷ xs) (y ∷ ys) = (x == y) && same_key xs ys

unfoldable pub get : GateCache → List Lit → Option Lit
unfolding same_key
get [] k = none
get ((j, z) ∷ g) k = if same_key j k then some z else get g k

unfoldable pub insert : GateCache → List Lit → Lit → GateCache
unfolding same_key
insert [] k v = (k, v) ∷ []
insert ((j, z) ∷ g) k v = if same_key j k then (k, v) ∷ g else (j, z) ∷ insert g k v

-- `sort_unstable` on codes.
unfoldable pub insert_sorted : Lit → List Lit → List Lit
insert_sorted l [] = l ∷ []
insert_sorted l (m ∷ ms) = if leb l m then l ∷ m ∷ ms else m ∷ insert_sorted l ms

unfoldable pub sort : List Lit → List Lit
unfolding insert_sorted
sort [] = []
sort (l ∷ ls) = insert_sorted l (sort ls)

-- `dedup`: of neighbours that are equal the first stays.
unfoldable pub dedup_from : Lit → List Lit → List Lit
dedup_from l [] = []
dedup_from l (m ∷ ms) = if l == m then dedup_from l ms else m ∷ dedup_from m ms

unfoldable pub dedup : List Lit → List Lit
unfolding dedup_from
dedup [] = []
dedup (l ∷ ls) = l ∷ dedup_from l ls

-- `windows(2).any(|w| !w[0] == w[1])`
unfoldable pub has_clash : List Lit → Bool
has_clash [] = false
has_clash (l ∷ []) = false
has_clash (l ∷ m ∷ ms) = (lit_not l == m) || has_clash (m ∷ ms)

unfoldable pub bool_not : CircuitBool → CircuitBool
bool_not (const x) = const (not x)
bool_not (lit l) = lit (lit_not l)

unfoldable pub bool_var : Var → CircuitBool
bool_var v = lit (positive v)

abbrev pub push_lit : Lit → Option (List Lit) → Option (List Lit)
push_lit l none = none
push_lit l (some ls) = some (l ∷ ls)

-- The literals that are left of the operands; `none` is the early return at a constant false.
unfoldable pub collect_lits : List CircuitBool → Option (List Lit)
collect_lits [] = some []
collect_lits (const false ∷ bs) = none
collect_lits (const true ∷ bs) = collect_lits bs
collect_lits (lit l ∷ bs) = push_lit l (collect_lits bs)

-- The clauses of a new gate: the loop over its operands, then the big clause.
unfoldable pub define_gate : Lit → List Lit → List Lit → Cnf → Option Cnf
define_gate z [] big c = add_clause c big
define_gate z (l ∷ ls) big c = elim (add_clause c (lit_not z ∷ l ∷ [])) [
  | none ↦ none
  | some c' ↦ define_gate z ls (big ++ (lit_not l ∷ [])) c'
]

abbrev pub finish_gate : List Lit → Lit → Circuit → Option Cnf → Option (CircuitBool × Circuit)
finish_gate lits z s none = none
finish_gate lits z s (some c) = some (lit z, record s { cnf = c; gates = insert s.gates lits z })

unfoldable pub mint_gate : List Lit → M CircuitBool
unfolding define_gate insert
mint_gate lits s = elim (fresh_var s.cnf) [
  | none ↦ none
  | some r ↦
      finish_gate lits (positive r.var) s
        (define_gate (positive r.var) lits (positive r.var ∷ []) r.cnf)
]

unfoldable pub cached_gate : List Lit → M CircuitBool
unfolding get mint_gate
cached_gate lits s = elim (get s.gates lits) [
  | some hit ↦ some (lit hit, s)
  | none ↦ mint_gate lits s
]

-- By the number of operands that are left.
unfoldable pub gate_of : List Lit → M CircuitBool
unfolding cached_gate
gate_of [] = pure (const true)
gate_of (l ∷ []) = pure (lit l)
gate_of (l ∷ m ∷ ms) = cached_gate (l ∷ m ∷ ms)

unfoldable pub canonical : List Lit → List Lit
unfolding sort dedup
canonical ls = dedup (sort ls)

unfoldable pub and_core : List CircuitBool → M CircuitBool
unfolding collect_lits canonical has_clash gate_of
and_core items = elim (collect_lits items) [
  | none ↦ pure (const false)
  | some ls ↦ if has_clash (canonical ls) then pure (const false) else gate_of (canonical ls)
]

-- The effort meter, a `u64`.
unfoldable pub meter : ℕ → Circuit → Circuit
meter n s = record s { ops = (s.ops + (n + 1)) % 2 ^ 64 }

unfoldable pub and_many : List CircuitBool → M CircuitBool
unfolding and_core meter
and_many items s = and_core items (meter (length items) s)

unfoldable pub or_many : List CircuitBool → M CircuitBool
unfolding and_core bool_not meter
or_many items s =
    bind_at (and_core (map bool_not items) (meter (length items) s)) (λ conj. pure (bool_not conj))

unfoldable pub and : CircuitBool → CircuitBool → M CircuitBool
unfolding and_many
and a b = and_many (a ∷ b ∷ [])

unfoldable pub or : CircuitBool → CircuitBool → M CircuitBool
unfolding or_many
or a b = or_many (a ∷ b ∷ [])

unfoldable pub implies : CircuitBool → CircuitBool → M CircuitBool
unfolding or bool_not
implies a b = or (bool_not a) b

unfoldable pub iff : CircuitBool → CircuitBool → M CircuitBool
unfolding implies and bool_not
iff (const x) other = pure (if x then other else bool_not other)
iff other (const x) = pure (if x then other else bool_not other)
iff (lit l) (lit m) = do ab ← implies (lit l) (lit m); ba ← implies (lit m) (lit l); and ab ba

unfoldable pub xor : CircuitBool → CircuitBool → M CircuitBool
unfolding iff bool_not
xor a b = do e ← iff a b; pure (bool_not e)

unfoldable pub ite : CircuitBool → CircuitBool → CircuitBool → M CircuitBool
unfolding and or bool_not
ite (const true) t e = pure t
ite (const false) t e = pure e
ite (lit c) t e = do ct ← and (lit c) t; ne ← and (bool_not (lit c)) e; or ct ne
