-- ===== src/Circuit/Model.antt =====
-- What a builder state means, how states grow, and when a gate constructor computes a function of
-- the valuations. `Total` is total: with room for `k` more variables the constructor returns.
use mettle.Base.{
  ℕ, ◌+◌, ◌≤◌, ◌≡◌, refl, ap, ◌∙◌, arith, Bool, true, List, map, some, All, All-map, length,
}
use mettle.Solve.{Lit, max_vars}
use mettle.Solve.Models.{Valuation, lit_value, sat, IsMinted, Agree}
use mettle.Circuit.{CircuitBool, const, lit, Circuit, M, pure, ◌>>=◌, bind_at}
use mettle.Circuit.Canonical.{conj}

abbrev pub Models : Valuation → Circuit → Type 0
Models ρ s = sat ρ s.cnf.clauses ≡ true

-- A cached gate's literal is the conjunction of its key.
abbrev pub Defines : Valuation → List Lit × Lit → Type 0
Defines ρ e = lit_value ρ e.1 ≡ conj ρ e.0

pub record IsWellFormed (s : Circuit) : Type 0 where
  pub bounded : s.cnf.num_vars ≤ max_vars
  pub clauses_minted : All (All (IsMinted s.cnf.num_vars)) s.cnf.clauses
  pub gates_minted : All (λ (e : List Lit × Lit). IsMinted s.cnf.num_vars e.1) s.gates
  pub gates_sound : (ρ : Valuation) → Models ρ s → All (Defines ρ) s.gates

-- `t` has at most `k` variables more than `s`, its models are models of `s`, and each model of `s`
-- extends to one of `t` that agrees with it on the variables of `s`.
pub record Extends (k : ℕ) (s t : Circuit) : Type 0 where
  pub grows : s.cnf.num_vars ≤ t.cnf.num_vars
  pub cost : t.cnf.num_vars ≤ s.cnf.num_vars + k
  pub keeps : (ρ : Valuation) → Models ρ t → Models ρ s
  pub conservative :
      (ρ : Valuation) → Models ρ s → (σ : Valuation) × Agree s.cnf.num_vars ρ σ × Models σ t

-- Values made of circuit bits: when their literals are minted, and what they stand for.
pub record Shape (A B : Type 0) : Type 1 where
  pub minted : ℕ → A → Type 0
  pub eval : Valuation → A → B
  pub mono : (n m : ℕ) (a : A) → n ≤ m → minted n a → minted m a

abbrev pub bool_value : Valuation → CircuitBool → Bool
bool_value ρ (const b) = b
bool_value ρ (lit l) = lit_value ρ l

abbrev pub IsMintedBool : ℕ → CircuitBool → Type 0
IsMintedBool n (const b) = Unit
IsMintedBool n (lit l) = IsMinted n l

pub IsMintedBool-mono : (n m : ℕ) (b : CircuitBool) → n ≤ m → IsMintedBool n b → IsMintedBool m b
IsMintedBool-mono n m (const b) h k = tt
IsMintedBool-mono n m (lit l) h k = omega arith

abbrev pub bit : Shape CircuitBool Bool
bit = record { minted = IsMintedBool; eval = bool_value; mono = IsMintedBool-mono }

-- A vector of exactly `w` bits.
abbrev pub bits : ℕ → Shape (List CircuitBool) (List Bool)
bits w = record {
  minted = λ n bs. (length bs ≡ w) × All (IsMintedBool n) bs;
  eval = λ ρ bs. map (bool_value ρ) bs;
  mono = λ n m bs h k.
      (k.0, All-map (IsMintedBool n) (IsMintedBool m) bs (λ b. IsMintedBool-mono n m b h) k.1);
}

abbrev pub both : {A B C D : Type 0} → Shape A B → Shape C D → Shape (A × C) (B × D)
both x y = record {
  minted = λ n p. x.minted n p.0 × y.minted n p.1;
  eval = λ ρ p. (x.eval ρ p.0, y.eval ρ p.1);
  mono = λ n m p h k. (x.mono n m p.0 h k.0, y.mono n m p.1 h k.1);
}

pub record Denotes {A B : Type 0} (x : Shape A B) (s : Circuit) (a : A) (g : Valuation → B)
    : Type 0 where
  pub minted : x.minted s.cnf.num_vars a
  pub value : (ρ : Valuation) → Models ρ s → x.eval ρ a ≡ g ρ

pub record Computes {A B : Type 0} (x : Shape A B) (s : Circuit) (k : ℕ) (m : M A)
    (g : Valuation → B) : Type 0 where
  pub result : A
  pub state : Circuit
  pub runs : m s ≡ some (result, state)
  pub valid : IsWellFormed state
  pub extends : Extends k s state
  pub denotes : Denotes x state result g

pub record Ready (k : ℕ) (s : Circuit) : Type 0 where
  pub valid : IsWellFormed s
  pub room : s.cnf.num_vars + k ≤ max_vars

abbrev pub Total : {A B : Type 0} → Shape A B → Circuit → ℕ → M A → (Valuation → B) → Type 0
Total x s k m g = Ready k s → Computes x s k m g

pub Extends-refl : (s : Circuit) → Extends 0 s s
Extends-refl s = record {
  grows = omega arith;
  cost = omega arith;
  keeps = λ ρ h. h;
  conservative = λ ρ h. (ρ, λ v _. refl, h);
}

pub Extends-trans :
    {j k : ℕ} {s t u : Circuit} → Extends j s t → Extends k t u → Extends (j + k) s u
Extends-trans e f = record {
  grows = omega arith;
  cost = omega arith;
  keeps = λ ρ h. e.keeps ρ (f.keeps ρ h);
  conservative = λ ρ h.
      let (σ, a, p) = e.conservative ρ h in
      let (τ, b, q) = f.conservative σ p in (τ, λ v hv. a v hv ∙ b v (omega arith), q);
}

pub Extends-le : {j k : ℕ} {s t : Circuit} → j ≤ k → Extends j s t → Extends k s t
Extends-le h e = record {
  grows = e.grows;
  cost = omega arith;
  keeps = e.keeps;
  conservative = e.conservative;
}

module _ {A B : Type 0} {x : Shape A B} where
  -- What a value denotes, it denotes in every later state.
  pub later :
      {k : ℕ} {s t : Circuit} {a : A} {g : Valuation → B}
      → Extends k s t
      → Denotes x s a g
      → Denotes x t a g
  later {s} {t} {a} e d = record {
    minted = x.mono s.cnf.num_vars t.cnf.num_vars a e.grows d.minted;
    value = λ ρ h. d.value ρ (e.keeps ρ h);
  }

  pub same :
      {s : Circuit} {a : A} {g h : Valuation → B}
      → ((ρ : Valuation) → g ρ ≡ h ρ)
      → Denotes x s a g
      → Denotes x s a h
  same e d = record { minted = d.minted; value = λ ρ m. d.value ρ m ∙ e ρ }

  pub self-Denotes :
      {s : Circuit} {a : A} → x.minted s.cnf.num_vars a → Denotes x s a (λ ρ. x.eval ρ a)
  self-Denotes h = record { minted = h; value = λ ρ m. refl }

  -- Two functions that agree in the models of the first state.
  pub same-Total :
      {s : Circuit} {k : ℕ} {m : M A} {g h : Valuation → B}
      → ((ρ : Valuation) → Models ρ s → g ρ ≡ h ρ)
      → Total x s k m g
      → Total x s k m h
  same-Total e c r =
      let d = c r in
      record {
        result = d.result;
        state = d.state;
        runs = d.runs;
        valid = d.valid;
        extends = d.extends;
        denotes = record {
          minted = d.denotes.minted;
          value = λ ρ i. d.denotes.value ρ i ∙ e ρ (d.extends.keeps ρ i);
        };
      }

  pub pure-Total :
      {s : Circuit} {a : A} {g : Valuation → B} → Denotes x s a g → Total x s 0 (pure a) g
  pure-Total {s} {a} d r = record {
    result = a;
    state = s;
    runs = refl;
    valid = r.valid;
    extends = Extends-refl s;
    denotes = d;
  }

  pub cost_le :
      {s : Circuit} {j k : ℕ} {m : M A} {g : Valuation → B}
      → j ≤ k
      → Total x s j m g
      → Total x s k m g
  cost_le h c r =
      let d = c (record { valid = r.valid; room = omega arith }) in
      record {
        result = d.result;
        state = d.state;
        runs = d.runs;
        valid = d.valid;
        extends = Extends-le h d.extends;
        denotes = d.denotes;
      }

  -- Another way to run the same computation.
  pub runs_same :
      {s : Circuit} {k : ℕ} {m n : M A} {g : Valuation → B}
      → n s ≡ m s
      → Total x s k m g
      → Total x s k n g
  runs_same e c r =
      let d = c r in
      record {
        result = d.result;
        state = d.state;
        runs = e ∙ d.runs;
        valid = d.valid;
        extends = d.extends;
        denotes = d.denotes;
      }

-- The rule of `do`: what follows starts in a later state, with the first result at hand.
pub bind-Total :
    {A B C D : Type 0} {x : Shape A B} {y : Shape C D} {s : Circuit} {j k : ℕ} {m : M A}
    {f : A → M C} {g : Valuation → B} {h : Valuation → D}
    → Total x s j m g
    → ((a : A) (t : Circuit) → Extends j s t → Denotes x t a g → Total y t k (f a) h)
    → Total y s (j + k) (m >>= f) h
bind-Total {s} {f} c rest r =
    let d = c (record { valid = r.valid; room = omega arith }) in
    let e =
      rest d.result d.state d.extends d.denotes
        (record { valid = d.valid; room = omega (arith, d.extends.cost, r.room) }) in
    record {
      result = e.result;
      state = e.state;
      runs = ap (λ o. bind_at o f) d.runs ∙ e.runs;
      valid = e.valid;
      extends = Extends-trans d.extends e.extends;
      denotes = e.denotes;
    }

pub pair :
    {A B C D : Type 0} {x : Shape A B} {y : Shape C D} {s : Circuit} {a : A} {c : C}
    {g : Valuation → B} {h : Valuation → D}
    → Denotes x s a g
    → Denotes y s c h
    → Denotes (both x y) s (a, c) (λ ρ. (g ρ, h ρ))
pair d e = record { minted = (d.minted, e.minted); value = λ ρ m i. (d.value ρ m i, e.value ρ m i) }

module _ {A B C D : Type 0} (x : Shape A B) (y : Shape C D) {s : Circuit} {p : A × C}
    {g : Valuation → B × D} where
  pub first : Denotes (both x y) s p g → Denotes x s p.0 (λ ρ. (g ρ).0)
  first d = record { minted = d.minted.0; value = λ ρ m. ap (λ q. q.0) (d.value ρ m) }

  pub second : Denotes (both x y) s p g → Denotes y s p.1 (λ ρ. (g ρ).1)
  second d = record { minted = d.minted.1; value = λ ρ m. ap (λ q. q.1) (d.value ρ m) }
