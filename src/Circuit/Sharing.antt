-- ===== src/Circuit/Sharing.antt =====
-- The gate cache makes a gate a function of the set of its operands: a second request, in any order
-- and with any repetitions, gets the first one's literal.
use mettle.Base.{
  ℕ, ◌≡◌, refl, sym, ap, ◌∙◌, arith, true, false, Bool-cases, Option-cases, List, [], ◌∷◌, map,
  Option, some, none, length, length-map, inl, inr, if◌then◌else◌,
}
use mettle.Solve.{Lit, Cnf, positive, fresh_var}
use mettle.Circuit.{
  Circuit, CircuitBool, const, lit, pure, canonical, collect_lits, has_clash, and_core, and_many,
  gate_of, cached_gate, mint_gate, finish_gate, define_gate, get, meter,
}
use mettle.Circuit.Cache.{get-insert}
use mettle.Circuit.Members.{member, canonical_unique}

collect_lits-lit : (ls : List Lit) → collect_lits (map lit ls) ≡ some ls
unfolding collect_lits
collect_lits-lit [] = refl
collect_lits-lit (l ∷ ls) = rw (collect_lits-lit ls)

abbrev cached_in : List Lit → Option (CircuitBool × Circuit) → Option Lit
cached_in ls none = none
cached_in ls (some p) = get p.1.gates ls

-- Every gate that is handed out stands in the cache.
finish_gate_cached :
    (ls : List Lit) (z : Lit) (s t : Circuit) (r : CircuitBool) (c : Option Cnf)
    → finish_gate ls z s c ≡ some (r, t)
    → (y : Lit) × (r ≡ lit y) × (get t.gates ls ≡ some y)
finish_gate_cached ls z s t r none e = absurd (cc e)
finish_gate_cached ls z s t r (some c) e =
    (z, ground arith, ap (cached_in ls) (sym e) ∙ get-insert s.gates ls z)

mint_gate_cached :
    (ls : List Lit) (s t : Circuit) (r : CircuitBool)
    → mint_gate ls s ≡ some (r, t)
    → (y : Lit) × (r ≡ lit y) × (get t.gates ls ≡ some y)
unfolding mint_gate
mint_gate_cached ls s t r e =
    elim (Option-cases (fresh_var s.cnf))
      as (λ _. (y : Lit) × (r ≡ lit y) × (get t.gates ls ≡ some y)) [
        | inl q ↦ absurd (cc (q, e))
        | inr (f, q) ↦
            finish_gate_cached ls (positive f.var) s t r
              (define_gate (positive f.var) ls (positive f.var ∷ []) f.cnf) (rw (q, mint_gate) at e)
      ]

hit :
    (ls : List Lit) (y : Lit) (s : Circuit)
    → get s.gates ls ≡ some y
    → cached_gate ls s ≡ some (lit y, s)
unfolding cached_gate
hit ls y s e = rw (e, cached_gate)

abbrev result_of : CircuitBool → Option (CircuitBool × Circuit) → CircuitBool
result_of d none = d
result_of d (some p) = p.0

cached_gate_cached :
    (ls : List Lit) (s t : Circuit) (r : CircuitBool)
    → cached_gate ls s ≡ some (r, t)
    → (y : Lit) × (r ≡ lit y) × (get t.gates ls ≡ some y)
unfolding cached_gate
cached_gate_cached ls s t r e = from_cache (get s.gates ls) refl
  where
    from_cache :
        (o : Option Lit) → get s.gates ls ≡ o → (y : Lit) × (r ≡ lit y) × (get t.gates ls ≡ some y)
    from_cache none q = mint_gate_cached ls s t r (rw (q, cached_gate) at e)
    from_cache (some y) q =
        let found : some (lit y, s) ≡ some (r, t) = rw (q, cached_gate) at e in
        (y, sym (ap (result_of r) found), ap (cached_in ls) (sym found) ∙ q)

cached_gate_again :
    (ls : List Lit) (n : ℕ) (s t : Circuit) (r : CircuitBool)
    → cached_gate ls s ≡ some (r, t)
    → cached_gate ls (meter n t) ≡ some (r, meter n t)
unfolding meter
cached_gate_again ls n s t r e =
    let (y, p, q) = cached_gate_cached ls s t r e in
    hit ls y (meter n t) q ∙ ap (λ x. some (x, meter n t)) (sym p)

pure_again : (a r : CircuitBool) (s t u : Circuit) → pure a s ≡ some (r, t) → pure a u ≡ some (r, u)
pure_again a r s t u e = ap (λ o. some (result_of a o, u)) e

gate_of_again :
    (ls : List Lit) (n : ℕ) (s t : Circuit) (r : CircuitBool)
    → gate_of ls s ≡ some (r, t)
    → gate_of ls (meter n t) ≡ some (r, meter n t)
unfolding gate_of
gate_of_again [] n s t r e = pure_again (const true) r s t (meter n t) e
gate_of_again (l ∷ []) n s t r e = pure_again (lit l) r s t (meter n t) e
gate_of_again (l ∷ m ∷ ms) n s t r e = cached_gate_again (l ∷ m ∷ ms) n s t r e

canonical_core : List Lit → Circuit → Option (CircuitBool × Circuit)
canonical_core ks s = if has_clash ks then pure (const false) s else gate_of ks s

and_core-lit :
    (ls : List Lit) (s : Circuit) → and_core (map lit ls) s ≡ canonical_core (canonical ls) s
unfolding and_core canonical_core
and_core-lit ls s = elim (Bool-cases (has_clash (canonical ls))) [
  | inl q ↦ rw (collect_lits-lit ls, q, and_core, canonical_core)
  | inr q ↦ rw (collect_lits-lit ls, q, and_core, canonical_core)
]

canonical_core_again :
    (ks : List Lit) (n : ℕ) (s t : Circuit) (r : CircuitBool)
    → canonical_core ks s ≡ some (r, t)
    → canonical_core ks (meter n t) ≡ some (r, meter n t)
unfolding canonical_core
canonical_core_again ks n s t r e = elim (Bool-cases (has_clash ks)) [
  | inl q ↦ rw q (pure_again (const false) r s t (meter n t) (rw q at e))
  | inr q ↦ rw q (gate_of_again ks n s t r (rw q at e))
]

-- When and_many over a list of literals returns r and a state t, then and_many from t, over any
-- list with the same set of literals, returns r and changes t only in its meter.
pub and_many_again :
    (ls ms : List Lit) (s t : Circuit) (r : CircuitBool)
    → and_many (map lit ls) s ≡ some (r, t)
    → ((x : Lit) → member x ls ≡ member x ms)
    → and_many (map lit ms) t ≡ some (r, meter (length ms) t)
unfolding and_many
and_many_again ls ms s t r e h =
    let start = meter (length (map lit ls)) s in
    ap (λ n. and_core (map lit ms) (meter n t)) (length-map ms lit)
    ∙ and_core-lit ms (meter (length ms) t)
    ∙ ap (λ ks. canonical_core ks (meter (length ms) t)) (sym (canonical_unique ls ms h))
    ∙ canonical_core_again (canonical ls) (length ms) start t r (sym (and_core-lit ls start) ∙ e)
