-- ===== src/Circuit/Operations.antt =====
-- Every gate constructor returns when the pool has room, and its result means the Boolean function
-- that the gate is named for, in every model of the extended formula.
use mettle.Base.{
  ℕ, suc, ◌≡◌, refl, ap, ap₂, ◌∙◌, arith, Bool, true, false, not, beq, xor, ◌&&◌, ◌||◌, List, [],
  ◌∷◌, map, All, length, length-map, if◌then◌else◌,
}
use mettle.Solve.Models.{Valuation, lit_value-not}
use mettle.Circuit
use mettle.Circuit.{
  CircuitBool, const, lit, M, pure, bind_at, ◌>>=◌, and_core, and_many, or_many, bool_not, meter,
  and, or, implies, iff, ite,
}
use mettle.Circuit.Conjunction.{every, some_true, and_core-Total}
use mettle.Circuit.Define.{not-IsMinted}
use mettle.Circuit.Model.{
  Models, Denotes, Total, bit, bits, bool_value, IsMintedBool, pure-Total, cost_le, same,
  same-Total, later, bind-Total,
}

-- The meter changes neither the formula nor the cache.
metered :
    (n : ℕ) {k : ℕ} {s : Circuit.Circuit} {m m' : M CircuitBool} {g : Valuation → Bool}
    → m' s ≡ m (meter n s)
    → Total bit (meter n s) k m g
    → Total bit s k m' g
unfolding meter
metered n e c r =
    let v = r.valid in
    let d = c (record {
      valid = record {
        bounded = v.bounded;
        clauses_minted = v.clauses_minted;
        gates_minted = v.gates_minted;
        gates_sound = v.gates_sound;
      };
      room = r.room;
    }) in
    let x = d.extends in
    record {
      result = d.result;
      state = d.state;
      runs = e ∙ d.runs;
      valid = d.valid;
      extends = record {
        grows = x.grows;
        cost = x.cost;
        keeps = x.keeps;
        conservative = x.conservative;
      };
      denotes = d.denotes;
    }

pub bool_value-not :
    (ρ : Valuation) (b : CircuitBool) → bool_value ρ (bool_not b) ≡ not (bool_value ρ b)
unfolding bool_not
bool_value-not ρ (const b) = refl
bool_value-not ρ (lit l) = lit_value-not ρ l

pub bool_not-IsMinted : (n : ℕ) (b : CircuitBool) → IsMintedBool n b → IsMintedBool n (bool_not b)
unfolding bool_not
bool_not-IsMinted n (const b) h = tt
bool_not-IsMinted n (lit l) h = not-IsMinted n l h

map-not :
    (ρ : Valuation) (items : List CircuitBool)
    → map (bool_value ρ) (map bool_not items) ≡ map not (map (bool_value ρ) items)
map-not ρ [] = refl
map-not ρ (b ∷ bs) = ap₂ ◌∷◌ (bool_value-not ρ b) (map-not ρ bs)

map_not-minted :
    (n : ℕ) (items : List CircuitBool)
    → All (IsMintedBool n) items
    → All (IsMintedBool n) (map bool_not items)
map_not-minted n [] h = tt
map_not-minted n (b ∷ bs) h = (bool_not-IsMinted n b h.0, map_not-minted n bs h.1)

de_morgan : (bs : List Bool) → not (every (map not bs)) ≡ some_true bs
de_morgan [] = refl
de_morgan (true ∷ bs) = refl
de_morgan (false ∷ bs) = de_morgan bs

module _ {s : Circuit.Circuit} where
  pub not-Denotes :
      {a : CircuitBool} {g : Valuation → Bool}
      → Denotes bit s a g
      → Denotes bit s (bool_not a) (λ ρ. not (g ρ))
  not-Denotes {a} d = record {
    minted = bool_not-IsMinted s.cnf.num_vars a d.minted;
    value = λ ρ m. bool_value-not ρ a ∙ ap not (d.value ρ m);
  }

  pub not_all_denote :
      {n : ℕ} {items : List CircuitBool} {g : Valuation → List Bool}
      → Denotes (bits n) s items g
      → Denotes (bits n) s (map bool_not items) (λ ρ. map not (g ρ))
  not_all_denote {items} d = record {
    minted =
        (length-map items bool_not ∙ d.minted.0, map_not-minted s.cnf.num_vars items d.minted.1);
    value = λ ρ m. map-not ρ items ∙ ap (map not) (d.value ρ m);
  }

  pub const-Denotes : (b : Bool) → Denotes bit s (const b) (λ ρ. b)
  const-Denotes b = record { minted = tt; value = λ ρ m. refl }

  pub nil-Denotes : Denotes (bits 0) s [] (λ ρ. [])
  nil-Denotes = record { minted = (refl, tt); value = λ ρ m. refl }

  pub cons-Denotes :
      {n : ℕ} {a : CircuitBool} {items : List CircuitBool} {g : Valuation → Bool}
      {h : Valuation → List Bool}
      → Denotes bit s a g
      → Denotes (bits n) s items h
      → Denotes (bits (suc n)) s (a ∷ items) (λ ρ. g ρ ∷ h ρ)
  cons-Denotes d e = record {
    minted = (ap suc e.minted.0, (d.minted, e.minted.1));
    value = λ ρ m. ap₂ ◌∷◌ (d.value ρ m) (e.value ρ m);
  }

-- A state with the meter moved on denotes what the state denotes.
meter-Denotes :
    (j : ℕ) {n : ℕ} {s : Circuit.Circuit} {items : List CircuitBool} {g : Valuation → List Bool}
    → Denotes (bits n) s items g
    → Denotes (bits n) (meter j s) items g
unfolding meter
meter-Denotes j d = record { minted = d.minted; value = d.value }

module _ {n : ℕ} {s : Circuit.Circuit} {items : List CircuitBool} {g : Valuation → List Bool} where
  -- `and_many` returns, with at most one new variable, the conjunction of its operands.
  pub and_many-Total :
      Denotes (bits n) s items g → Total bit s 1 (and_many items) (λ ρ. every (g ρ))
  unfolding and_many
  and_many-Total d = metered (length items) refl (and_core-Total (meter-Denotes (length items) d))

  pub or_many-Total :
      Denotes (bits n) s items g → Total bit s 1 (or_many items) (λ ρ. some_true (g ρ))
  unfolding or_many
  or_many-Total d =
      same-Total (λ ρ m. de_morgan (g ρ))
        (metered (length items) {m = and_core (map bool_not items) >>= λ conj. pure (bool_not conj)}
          refl
          (bind-Total (and_core-Total (not_all_denote (meter-Denotes (length items) d)))
            (λ a t e da. pure-Total (not-Denotes da))))

two_true : (a b : Bool) → (a && (b && true)) ≡ (a && b)
two_true a b = ground arith

either_true : (a b : Bool) → (a || (b || false)) ≡ (a || b)
either_true a b = ground arith

mutual_implication : (a b : Bool) → ((not a || b) && (not b || a)) ≡ beq a b
mutual_implication a b = ground arith

module _ {s : Circuit.Circuit} {a b : CircuitBool} {g h : Valuation → Bool} where
  pub and_Total : Denotes bit s a g → Denotes bit s b h → Total bit s 1 (and a b) (λ ρ. g ρ && h ρ)
  unfolding and
  and_Total d e =
      same-Total (λ ρ m. two_true (g ρ) (h ρ))
        (and_many-Total (cons-Denotes d (cons-Denotes e nil-Denotes)))

  pub or_Total : Denotes bit s a g → Denotes bit s b h → Total bit s 1 (or a b) (λ ρ. g ρ || h ρ)
  unfolding or
  or_Total d e =
      same-Total (λ ρ m. either_true (g ρ) (h ρ))
        (or_many-Total (cons-Denotes d (cons-Denotes e nil-Denotes)))

pub implies-Total :
    {s : Circuit.Circuit} {a b : CircuitBool} {g h : Valuation → Bool}
    → Denotes bit s a g
    → Denotes bit s b h
    → Total bit s 1 (implies a b) (λ ρ. not (g ρ) || h ρ)
unfolding implies
implies-Total d e = or_Total (not-Denotes d) e

-- A constant operand gives the other operand or its negation.
choose-Denotes :
    {s : Circuit.Circuit} {b : CircuitBool} {h : Valuation → Bool} (x : Bool)
    → Denotes bit s b h
    → Denotes bit s (if x then b else bool_not b) (λ ρ. beq x (h ρ))
choose-Denotes true d = same (λ ρ. beq_true _) d
  where
    beq_true : (y : Bool) → y ≡ beq true y
    beq_true true = refl
    beq_true false = refl
choose-Denotes false d = same (λ ρ. beq_false _) (not-Denotes d)
  where
    beq_false : (y : Bool) → not y ≡ beq false y
    beq_false true = refl
    beq_false false = refl

const_value :
    {s : Circuit.Circuit} {x : Bool} {g : Valuation → Bool}
    → Denotes bit s (const x) g
    → (ρ : Valuation) → Models ρ s
    → x ≡ g ρ
const_value d ρ m = d.value ρ m

beq_comm : (a b : Bool) → beq a b ≡ beq b a
beq_comm a b = ground arith

-- `iff` returns, with at most three new variables, the equality of its operands.
pub iff_Total :
    {s : Circuit.Circuit} (a b : CircuitBool) {g h : Valuation → Bool}
    → Denotes bit s a g
    → Denotes bit s b h
    → Total bit s 3 (iff a b) (λ ρ. beq (g ρ) (h ρ))
unfolding iff
iff_Total (const x) b {h} d e =
    same-Total (λ ρ m. ap (λ y. beq y (h ρ)) (const_value d ρ m))
      (cost_le (omega arith) (pure-Total (choose-Denotes x e)))
iff_Total (lit l) (const x) {g} d e =
    same-Total (λ ρ m. ap (λ y. beq y (g ρ)) (const_value e ρ m) ∙ beq_comm _ _)
      (cost_le (omega arith) (pure-Total (choose-Denotes x d)))
iff_Total (lit l) (lit n) {g} {h} d e =
    same-Total (λ ρ m. mutual_implication (g ρ) (h ρ))
      (bind-Total (implies-Total d e) (λ x t i dx.
        bind-Total (implies-Total (later i e) (later i d)) (λ y u j dy. and_Total (later j dx) dy)))

pub xor-Total :
    {s : Circuit.Circuit} (a b : CircuitBool) {g h : Valuation → Bool}
    → Denotes bit s a g
    → Denotes bit s b h
    → Total bit s 3 (Circuit.xor a b) (λ ρ. xor (g ρ) (h ρ))
unfolding Circuit.xor
xor-Total a b d e = bind-Total (iff_Total a b d e) (λ x t i dx. pure-Total (not-Denotes dx))

choice : (c t e : Bool) → ((c && t) || (not c && e)) ≡ (if c then t else e)
choice c t e = ground arith

pub ite-Total :
    {s : Circuit.Circuit} (c : CircuitBool) {a b : CircuitBool} {f g h : Valuation → Bool}
    → Denotes bit s c f
    → Denotes bit s a g
    → Denotes bit s b h
    → Total bit s 3 (ite c a b) (λ ρ. if f ρ then g ρ else h ρ)
unfolding ite
ite-Total (const true) {g} {h} c d e =
    same-Total (λ ρ m. ap (λ y. if y then g ρ else h ρ) (const_value c ρ m))
      (cost_le (omega arith) (pure-Total d))
ite-Total (const false) {g} {h} c d e =
    same-Total (λ ρ m. ap (λ y. if y then g ρ else h ρ) (const_value c ρ m))
      (cost_le (omega arith) (pure-Total e))
ite-Total (lit l) {f} {g} {h} c d e =
    same-Total (λ ρ m. choice (f ρ) (g ρ) (h ρ))
      (bind-Total (and_Total c d) (λ x t i dx.
        bind-Total (and_Total (not-Denotes (later i c)) (later i e))
          (λ y u j dy. or_Total (later j dx) dy)))
