-- ===== src/Deadlock/Cleanup.antt =====
-- `deadlock_cleanup_process` of src/deadlock.c: its while loops end, and what they leave.
use fleetos.Base.{
  ℕ, zero, suc, ◌+◌, ◌-◌, ◌<◌, ◌≡◌, refl, sym, ap, Bool, false, ◌==◌, ltb, ◌&&◌, if◌then◌else◌,
  arith, pos, lt→ltb, subst,
}
use fleetos.Sync.{max_procs}
use fleetos.Deadlock.{
  ResourceGraph, put, put2, num_resources, deadlock_release, release_while, clear_resource,
  deadlock_cleanup_process,
}

-- `p` has given back all it had of `r`, and nothing else has changed.
record Released (p r : ℕ) (g h : ResourceGraph) : Type 0 where
  pool : (s : ℕ) → h.available s ≡ put r (g.available r + g.allocation p r) g.available s
  holders : (q s : ℕ) → h.allocation q s ≡ put2 p r 0 g.allocation q s
  requests : h.request ≡ g.request
  actives : h.active ≡ g.active

release_one :
    (g : ResourceGraph) (p r : ℕ)
    → p < max_procs
    → r < num_resources
    → 0 < g.allocation p r
    → deadlock_release g (pos p) (pos r) ≡ record g {
      allocation = put2 p r (g.allocation p r - 1) g.allocation;
      available = put r (g.available r + 1) g.available;
    }
unfolding deadlock_release
release_one g p r hp hr h =
    rw (lt→ltb p max_procs hp, lt→ltb r num_resources hr, lt→ltb 0 (g.allocation p r) h) refl

-- The loop runs as often as the process holds the resource.
release_while-Released :
    (fuel : ℕ) (g : ResourceGraph) (p r : ℕ)
    → p < max_procs
    → r < num_resources
    → g.allocation p r ≡ fuel
    → Released p r g (release_while fuel g (pos p) r)
unfolding release_while
release_while-Released zero g p r hp hr e = record {
  pool = λ s. ground arith;
  holders = λ q s. ground arith;
  requests = refl;
  actives = refl;
}
release_while-Released (suc fuel) g p r hp hr e =
    let one = record g {
      allocation = put2 p r (g.allocation p r - 1) g.allocation;
      available = put r (g.available r + 1) g.available;
    } in
    let rest : Released p r one (release_while fuel one (pos p) r) =
      release_while-Released fuel one p r hp hr (ground arith) in
    let mine : 0 < g.allocation p r = omega (arith, e) in
    rw (lt→ltb 0 (g.allocation p r) mine) (
      subst (λ k. Released p r g (release_while fuel k (pos p) r))
        (sym (release_one g p r hp hr mine))
        (record {
          pool = λ s. ground (arith, rest.pool s);
          holders = λ q s. ground (arith, rest.holders q s);
          requests = rest.requests;
          actives = rest.actives;
        }))

abbrev pub taken_from : ℕ → (ℕ → ℕ → ℕ) → ℕ → ℕ → ℕ
taken_from p a q s = if (q == p) && ltb s num_resources then 0 else a q s

-- The process holds nothing and asks for nothing, what it held is in the pool, and the others keep
-- what they have.
pub record Cleaned (p : ℕ) (g h : ResourceGraph) : Type 0 where
  pub pool :
      (s : ℕ)
      → h.available s
        ≡ (if ltb s num_resources then g.available s + g.allocation p s else g.available s)
  pub holders : (q s : ℕ) → h.allocation q s ≡ taken_from p g.allocation q s
  pub requests : (q s : ℕ) → h.request q s ≡ taken_from p g.request q s
  pub actives : (q : ℕ) → h.active q ≡ (if q == p then false else g.active q)

-- One round of the loop over the resources.
record ClearedOf (p r : ℕ) (g h : ResourceGraph) : Type 0 where
  pool : (s : ℕ) → h.available s ≡ put r (g.available r + g.allocation p r) g.available s
  holders : (q s : ℕ) → h.allocation q s ≡ put2 p r 0 g.allocation q s
  requests : (q s : ℕ) → h.request q s ≡ put2 p r 0 g.request q s
  actives : (q : ℕ) → h.active q ≡ g.active q

clear_resource-ClearedOf :
    (p r : ℕ) (g : ResourceGraph)
    → p < max_procs
    → r < num_resources
    → ClearedOf p r g (clear_resource (pos p) r g)
unfolding clear_resource
clear_resource-ClearedOf p r g hp hr =
    let rest = release_while-Released (g.allocation p r) g p r hp hr refl in
    record {
      pool = rest.pool;
      holders = rest.holders;
      requests = λ q s. ap (λ (a : ℕ → ℕ → ℕ). put2 p r 0 a q s) rest.requests;
      actives = λ q. ap (λ (a : ℕ → Bool). a q) rest.actives;
    }

-- After the call for a process in the table it holds nothing and asks for nothing, what it held is
-- in the pool, it is not active, and the others keep what they have.
pub deadlock_cleanup_process-Cleaned :
    (g : ResourceGraph) (p : ℕ) → p < max_procs → Cleaned p g (deadlock_cleanup_process g (pos p))
unfolding deadlock_cleanup_process
deadlock_cleanup_process-Cleaned g p hp =
    let g0 = clear_resource (pos p) 0 g in
    let g1 = clear_resource (pos p) 1 g0 in
    let c0 : ClearedOf p 0 g g0 = clear_resource-ClearedOf p 0 g hp (omega arith) in
    let c1 : ClearedOf p 1 g0 g1 = clear_resource-ClearedOf p 1 g0 hp (omega arith) in
    let c2 = clear_resource-ClearedOf p 2 g1 hp (omega arith) in
    rw (lt→ltb p max_procs hp) (record {
      pool = λ s. ground (
        arith,
        c0.pool s,
        c1.pool s,
        c2.pool s,
        c0.pool 1,
        c1.pool 2,
        c0.pool 2,
        c0.holders p 1,
        c1.holders p 2,
        c0.holders p 2,
      );
      holders = λ q s. ground (arith, c0.holders q s, c1.holders q s, c2.holders q s);
      requests = λ q s. ground (arith, c0.requests q s, c1.requests q s, c2.requests q s);
      actives = λ q. ground (arith, c0.actives q, c1.actives q, c2.actives q);
    })
