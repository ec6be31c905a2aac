-- ===== src/Deadlock/WaitFor.antt =====
-- The wait-for relation of the resource graph of src/deadlock.c, its paths, and the processes from
-- which every path ends.
use fleetos.Base.{ℕ, ◌<◌, ◌≡◌, ◌≢◌, refl, sym, subst, true, pos, arith, lt→ltb}
use fleetos.Sync.{max_procs}
use fleetos.Deadlock.{ResourceGraph, num_resources, is_active}

-- `p` has asked for something that the active process `q` holds.
pub record WaitsFor (g : ResourceGraph) (p q : ℕ) : Type 0 where
  pub resource : ℕ
  pub is_resource : resource < num_resources
  pub asked : 0 < g.request p resource
  pub in_table : q < max_procs
  pub is_alive : g.active q ≡ true
  pub other : q ≢ p
  pub holds : 0 < g.allocation q resource

pub data WaitPath (g : ResourceGraph) : ℕ → ℕ → Type 0 where
  last : {p q : ℕ} → WaitsFor g p q → WaitPath g p q
  via : {p q s : ℕ} → WaitsFor g p q → WaitPath g q s → WaitPath g p s

-- Every path from `p` ends.
pub data Safe (g : ResourceGraph) : ℕ → Type 0 where
  safe : {p : ℕ} → ((q : ℕ) → WaitsFor g p q → Safe g q) → Safe g p

pub extend : {g : ResourceGraph} {p q s : ℕ} → WaitPath g p q → WaitsFor g q s → WaitPath g p s
extend (last e) d = via e (last d)
extend (via e path) d = via e (extend path d)

pub join : {g : ResourceGraph} {p q s : ℕ} → WaitPath g p q → WaitPath g q s → WaitPath g p s
join (last e) more = via e more
join (via e path) more = via e (join path more)

pub path_end :
    {g : ResourceGraph} {p q : ℕ} → WaitPath g p q → (q < max_procs) × (g.active q ≡ true)
path_end (last e) = (e.in_table, e.is_alive)
path_end (via e path) = path_end path

-- No path from a safe process comes back to it.
pub Safe-acyclic : {g : ResourceGraph} {p q : ℕ} → Safe g p → WaitPath g p q → q ≢ p
Safe-acyclic {g} {p} {q} (safe h) (last e) same =
    Safe-acyclic (h q e) (last (subst (λ x. WaitsFor g x q) (sym same) e)) refl
Safe-acyclic {g} {p} {q} (safe h) (via {q = m} e path) same =
    Safe-acyclic (h m e) (extend path (subst (λ x. WaitsFor g x m) (sym same) e)) refl

pub is_active_lem : (g : ResourceGraph) (q : ℕ) → q < max_procs → is_active g (pos q) ≡ g.active q
unfolding is_active
is_active_lem g q h = ground (arith, lt→ltb q max_procs h)
