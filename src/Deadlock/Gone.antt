-- ===== src/Deadlock/Gone.antt =====
-- A process that src/deadlock.c has cleaned up: no waking of waiters gives it anything.
use fleetos.Base.{ℕ, zero, suc, ◌<◌, ◌≡◌, false, Bool-cases, inl, inr, arith, ltb, pos}
use fleetos.Sync.{max_procs}
use fleetos.Deadlock.{
  ResourceGraph, num_resources, is_active, deadlock_alloc, deadlock_cleanup_process, wake_entry,
  wake_entries, deadlock_wake_waiters,
}
use fleetos.Deadlock.Cleanup.{deadlock_cleanup_process-Cleaned}

-- The process holds nothing, asks for nothing, and is not active.
pub record Gone (p : ℕ) (g : ResourceGraph) : Type 0 where
  pub holds : (r : ℕ) → r < num_resources → g.allocation p r ≡ 0
  pub asks : (r : ℕ) → r < num_resources → g.request p r ≡ 0
  pub inactive : g.active p ≡ false

pub deadlock_cleanup_process-Gone :
    (g : ResourceGraph) (p : ℕ) → p < max_procs → Gone p (deadlock_cleanup_process g (pos p))
deadlock_cleanup_process-Gone g p h =
    let c = deadlock_cleanup_process-Cleaned g p h in
    record {
      holds = λ r small. ground (arith, c.holders p r);
      asks = λ r small. ground (arith, c.requests p r);
      inactive = ground (arith, c.actives p);
    }

module _ (p : ℕ) where
  wake_entry-Gone : (r i : ℕ) (g : ResourceGraph) → Gone p g → Gone p (wake_entry r i g).0
  unfolding wake_entry is_active deadlock_alloc
  wake_entry-Gone r i g v = record {
    holds = λ s h. ground (arith, v.holds s h);
    asks = λ s h. ground (arith, v.asks s h);
    inactive = ground (arith, v.inactive);
  }

  wake_entries-Gone : (n r i : ℕ) (g : ResourceGraph) → Gone p g → Gone p (wake_entries n r i g).0
  unfolding wake_entries
  wake_entries-Gone zero r i g v = v
  wake_entries-Gone (suc n) r i g v =
      wake_entries-Gone n r (suc i) (wake_entry r i g).0 (wake_entry-Gone r i g v)

  pub deadlock_wake_waiters-Gone :
      (r : ℕ) (g : ResourceGraph) → Gone p g → Gone p (deadlock_wake_waiters g (pos r)).0
  unfolding deadlock_wake_waiters
  deadlock_wake_waiters-Gone r g v =
      let w = wake_entries-Gone (g.wait_count r) r 0 g v in
      elim (Bool-cases (ltb r num_resources)) [
        | inl known ↦ rw known (record { holds = w.holds; asks = w.asks; inactive = w.inactive })
        | inr other ↦ rw other v
      ]
