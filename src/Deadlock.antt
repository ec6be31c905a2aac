-- ===== src/Deadlock.antt =====
-- src/deadlock.c and src/deadlock.h: the exclusive resources, who holds and who waits for them, and
-- the search for a deadlock. A C array is a function of its index: each access stands behind a test
-- of its bounds or a loop within them. The log lines are left out, and with them `deadlock_tick`.
-- The callback of `deadlock_set_victim_callback` does not touch the graph, so the calls of it come
-- back as the list of their pids.
pub mod Account
pub mod Exclusion
pub mod WaitFor
pub mod Search
pub mod Depth
pub mod Detect
pub mod Cleanup
pub mod Wake
pub mod Serve
pub mod Gone
mod Tests
use fleetos.Base.{
  ℕ, zero, suc, ◌+◌, ◌-◌, Bool, true, false, ◌&&◌, ◌||◌, not, List, [], ◌∷◌, ◌++◌, ltb, ◌==◌,
  if◌then◌else◌, ℤ, pos, minus_one, index, is_neg, eq_int, Option, none, some,
}
use Prim.Native.String.{String}
use fleetos.Types.{Priority, priority_value}
use fleetos.Sync.{max_procs}

abbrev pub num_resources : ℕ
num_resources = 3

pub record ResourceGraph : Type 0 where
  pub allocation : ℕ → ℕ → ℕ
  pub request : ℕ → ℕ → ℕ
  pub available : ℕ → ℕ
  pub active : ℕ → Bool
  pub wait_pid : ℕ → ℕ → ℤ
  pub wait_count : ℕ → ℕ
  pub priority : ℕ → Priority

-- `a[i] = v;`
abbrev pub put {ℓ} : {A : Type ℓ} → ℕ → A → (ℕ → A) → ℕ → A
put i v a j = if j == i then v else a j

-- `a[i][k] = v;`
abbrev pub put2 {ℓ} : {A : Type ℓ} → ℕ → ℕ → A → (ℕ → ℕ → A) → ℕ → ℕ → A
put2 i k v a j m = if j == i then if m == k then v else a j m else a j m

-- The tests at the top of each call, negated: `pid >= 0 && pid < MAX_PROCS`, and so for `rid`.
abbrev pub is_pid : ℤ → Bool
is_pid pid = not (is_neg pid) && ltb (index pid) max_procs

abbrev pub is_rid : ℤ → Bool
is_rid rid = not (is_neg rid) && ltb (index rid) num_resources

unfoldable pub deadlock_init : ResourceGraph → ResourceGraph
deadlock_init g = record g {
  allocation = λ (p : ℕ) (r : ℕ). 0;
  request = λ (p : ℕ) (r : ℕ). 0;
  active = λ (p : ℕ). false;
  wait_pid = λ (r : ℕ) (i : ℕ). minus_one;
  wait_count = λ (r : ℕ). 0;
  available = put 2 1 (put 1 1 (put 0 1 g.available));
}

unfoldable pub deadlock_set_priority : ResourceGraph → ℤ → Priority → ResourceGraph
deadlock_set_priority g pid p =
    if not (is_pid pid) then g else record g { priority = put (index pid) p g.priority }

unfoldable pub deadlock_get_available : ResourceGraph → ℤ → ℤ
deadlock_get_available g rid = if not (is_rid rid) then minus_one else pos (g.available (index rid))

unfoldable pub deadlock_alloc : ResourceGraph → ℤ → ℤ → ResourceGraph × ℤ
deadlock_alloc g pid rid =
    let p = index pid in
    let r = index rid in
    if not (is_pid pid)
    then (g, minus_one)
    else if not (is_rid rid)
    then (g, minus_one)
    else if not (ltb 0 (g.available r))
    then (g, minus_one)
    else (
      record g {
        available = put r (g.available r - 1) g.available;
        allocation = put2 p r (g.allocation p r + 1) g.allocation;
        request = put2 p r 0 g.request;
        active = put p true g.active;
      },
      pos 0,
    )

-- `graph.request[pid][rid] = 1; graph.active[pid] = 1;`
unfoldable pub note_request : ResourceGraph → ℕ → ℕ → ResourceGraph
note_request g p r = record g { request = put2 p r 1 g.request; active = put p true g.active }

-- `if (wait_count[rid] < MAX_PROCS) wait_pid[rid][wait_count[rid]++] = pid;`
unfoldable pub enqueue_waiter : ResourceGraph → ℤ → ℕ → ResourceGraph
enqueue_waiter g pid r =
    if ltb (g.wait_count r) max_procs
    then record g {
      wait_pid = put2 r (g.wait_count r) pid g.wait_pid;
      wait_count = put r (g.wait_count r + 1) g.wait_count;
    }
    else g

unfoldable pub deadlock_request : ResourceGraph → ℤ → ℤ → ResourceGraph × ℤ
deadlock_request g pid rid =
    let noted = note_request g (index pid) (index rid) in
    if not (is_pid pid)
    then (g, minus_one)
    else if not (is_rid rid)
    then (g, minus_one)
    else if ltb 0 (g.allocation (index pid) (index rid))
    then (g, pos 1)
    else if ltb 0 (noted.available (index rid))
    then deadlock_alloc noted pid rid
    else (enqueue_waiter noted pid (index rid), minus_one)

unfoldable pub deadlock_release : ResourceGraph → ℤ → ℤ → ResourceGraph
deadlock_release g pid rid =
    let p = index pid in
    let r = index rid in
    if not (is_pid pid)
    then g
    else if not (is_rid rid)
    then g
    else if not (ltb 0 (g.allocation p r))
    then g
    else record g {
      allocation = put2 p r (g.allocation p r - 1) g.allocation;
      available = put r (g.available r + 1) g.available;
    }

-- `while (allocation[pid][r] > 0) deadlock_release(pid, r);` with rounds for the count it starts at.
unfoldable pub release_while : ℕ → ResourceGraph → ℤ → ℕ → ResourceGraph
release_while zero g pid r = g
release_while (suc fuel) g pid r =
    let rest = release_while fuel (deadlock_release g pid (pos r)) pid r in
    if ltb 0 (g.allocation (index pid) r) then rest else g

-- One round of the loop of `deadlock_cleanup_process`.
unfoldable pub clear_resource : ℤ → ℕ → ResourceGraph → ResourceGraph
clear_resource pid r g =
    let released = release_while (g.allocation (index pid) r) g pid r in
    record released { request = put2 (index pid) r 0 released.request }

unfoldable pub deadlock_cleanup_process : ResourceGraph → ℤ → ResourceGraph
deadlock_cleanup_process g pid =
    let cleared = clear_resource pid 2 (clear_resource pid 1 (clear_resource pid 0 g)) in
    if not (is_pid pid) then g else record cleared { active = put (index pid) false cleared.active }

unfoldable pub is_active : ResourceGraph → ℤ → Bool
is_active g pid = is_pid pid && g.active (index pid)

-- One round of the first loop of `deadlock_wake_waiters`, and the pids the callback is called with.
unfoldable pub wake_entry : ℕ → ℕ → ResourceGraph → ResourceGraph × List ℤ
wake_entry r i g =
    let wpid = g.wait_pid r i in
    let granted = (deadlock_alloc g wpid (pos r)).0 in
    if is_neg wpid
    then (g, [])
    else if not (is_active g wpid)
    then (record g { wait_pid = put2 r i minus_one g.wait_pid }, [])
    else if ltb 0 (g.available r)
    then (record granted { wait_pid = put2 r i minus_one granted.wait_pid }, wpid ∷ [])
    else (g, [])

unfoldable pub wake_entries : ℕ → ℕ → ℕ → ResourceGraph → ResourceGraph × List ℤ
wake_entries zero r i g = (g, [])
wake_entries (suc n) r i g =
    let woken = wake_entry r i g in
    let rest = wake_entries n r (suc i) woken.0 in (rest.0, woken.1 ++ rest.1)

-- The second loop, which moves the entries left to the front; and how many they are.
unfoldable pub compact_waiters : ℕ → ℕ → ℕ → ℕ → (ℕ → ℕ → ℤ) → (ℕ → ℕ → ℤ) × ℕ
compact_waiters zero r i w queue = (queue, w)
compact_waiters (suc n) r i w queue =
    let kept = not (is_neg (queue r i)) in
    compact_waiters n r (suc i) (if kept then w + 1 else w)
      (if kept then put2 r w (queue r i) queue else queue)

unfoldable pub deadlock_wake_waiters : ResourceGraph → ℤ → ResourceGraph × List ℤ
deadlock_wake_waiters g rid =
    let r = index rid in
    let woken = wake_entries (g.wait_count r) r 0 g in
    let packed = compact_waiters (woken.0.wait_count r) r 0 0 woken.0.wait_pid in
    if not (is_rid rid) then (g, []) else (
      record woken.0 { wait_pid = packed.0; wait_count = put r packed.1 woken.0.wait_count },
      woken.1,
    )

unfoldable pub deadlock_resolve : ResourceGraph → ℤ → ResourceGraph × List ℤ
deadlock_resolve g pid =
    let g0 = deadlock_wake_waiters (deadlock_cleanup_process g pid) (pos 0) in
    let g1 = deadlock_wake_waiters g0.0 (pos 1) in
    let g2 = deadlock_wake_waiters g1.0 (pos 2) in
    if not (is_pid pid) then (g, []) else (g2.0, g0.1 ++ g1.1 ++ g2.1)

-- The arrays `visited` and `in_stack` of the search. `*progress` is written and never read.
pub record Marks : Type 0 where
  pub visited : ℕ → Bool
  pub in_stack : ℕ → Bool

-- `return 1` is true; false goes on with the next round.
abbrev pub unless_found :
    Option (Bool × Marks) → (Marks → Option (Bool × Marks)) → Option (Bool × Marks)
unless_found none next = none
unless_found (some (true, s)) next = some (true, s)
unless_found (some (false, s)) next = next s

-- One round of the loop over `q` in `dfs_cycle`, whose own calls are `visit`.
unfoldable pub probe :
    (ℕ → Marks → Option (Bool × Marks)) → ResourceGraph → ℕ → ℕ → ℕ → Marks → Option (Bool × Marks)
probe visit g pid r q s =
    if not (is_active g (pos q))
    then some (false, s)
    else if q == pid
    then some (false, s)
    else if not (ltb 0 (g.allocation q r))
    then some (false, s)
    else elim (s.visited q) [ false ↦ visit q s | true ↦ some (s.in_stack q, s) ]

unfoldable pub scan_procs :
    (ℕ → Marks → Option (Bool × Marks))
    → ResourceGraph
    → ℕ
    → ℕ
    → ℕ
    → ℕ
    → Marks
    → Option (Bool × Marks)
scan_procs visit g pid r zero q s = some (false, s)
scan_procs visit g pid r (suc n) q s =
    unless_found (probe visit g pid r q s) (scan_procs visit g pid r n (suc q))

unfoldable pub scan_resources :
    (ℕ → Marks → Option (Bool × Marks)) → ResourceGraph → ℕ → ℕ → ℕ → Marks → Option (Bool × Marks)
scan_resources visit g pid zero r s = some (false, s)
scan_resources visit g pid (suc n) r s =
    unless_found
      (if ltb 0 (g.request pid r) then scan_procs visit g pid r max_procs 0 s else some (false, s))
      (scan_resources visit g pid n (suc r))

unfoldable pub enter_stack : ℕ → Marks → Marks
enter_stack pid s = record { visited = put pid true s.visited; in_stack = put pid true s.in_stack }

unfoldable pub leave_stack : ℕ → Marks → Option (Bool × Marks)
leave_stack pid s = some (false, record s { in_stack = put pid false s.in_stack })

-- `none` when the fuel runs out.
unfoldable pub dfs_cycle : ℕ → ResourceGraph → ℕ → Marks → Option (Bool × Marks)
dfs_cycle zero g pid s = none
dfs_cycle (suc fuel) g pid s =
    unless_found (scan_resources (dfs_cycle fuel g) g pid num_resources 0 (enter_stack pid s))
      (leave_stack pid)

-- `for (r = 0; ...) if (request[pid][r] > 0) return 1;`
unfoldable pub any_request : ResourceGraph → ℕ → ℕ → ℕ → Bool
any_request g pid zero r = false
any_request g pid (suc n) r = ltb 0 (g.request pid r) || any_request g pid n (suc r)

unfoldable pub has_outgoing_request : ResourceGraph → ℕ → Bool
has_outgoing_request g pid =
    if not (is_active g (pos pid)) then false else any_request g pid num_resources 0

-- Does `i` replace the victim found so far?
unfoldable pub is_better_victim : ResourceGraph → ℕ → ℤ → Bool
is_better_victim g i out =
    let mine = priority_value (g.priority i) in
    let best = priority_value (g.priority (index out)) in
    is_neg out || ltb best mine || (mine == best && ltb (index out) i)

unfoldable pub choose_victim : ResourceGraph → Marks → ℕ → ℕ → ℤ → ℤ
choose_victim g s zero i out = out
choose_victim g s (suc n) i out =
    choose_victim g s n (suc i)
      (if (s.in_stack i && is_active g (pos i)) && is_better_victim g i out then pos i else out)

abbrev pub no_marks : Marks
no_marks = record { visited = λ (p : ℕ). false; in_stack = λ (p : ℕ). false }

-- After the search from one process.
abbrev pub note_victim : ResourceGraph → ℤ → Option (Bool × Marks) → Option ℤ
note_victim g out none = none
note_victim g out (some (true, s)) = some (choose_victim g s max_procs 0 out)
note_victim g out (some (false, s)) = some out

-- One round of the outer loop of `deadlock_detect`.
unfoldable pub detect_from : ℕ → ResourceGraph → ℕ → ℤ → Option ℤ
detect_from fuel g pid out =
    if not (is_active g (pos pid))
    then some out
    else if not (has_outgoing_request g pid)
    then some out
    else note_victim g out (dfs_cycle fuel g pid no_marks)

abbrev pub and_then : Option ℤ → (ℤ → Option ℤ) → Option ℤ
and_then none next = none
and_then (some out) next = next out

unfoldable pub detect_rounds : ℕ → ResourceGraph → ℕ → ℕ → ℤ → Option ℤ
detect_rounds fuel g zero pid out = some out
detect_rounds fuel g (suc n) pid out =
    and_then (detect_from fuel g pid out) (detect_rounds fuel g n (suc pid))

-- The result, and what `*victim_pid` holds afterwards.
abbrev pub report : ℤ → Option ℤ → Option (ℤ × ℤ)
report victim_pid none = none
report victim_pid (some out) = some (if is_neg out then (pos 0, victim_pid) else (pos 1, out))

-- A search enters each of the 16 processes once, so 17 calls in depth are enough.
unfoldable pub deadlock_detect : ResourceGraph → ℤ → Option (ℤ × ℤ)
deadlock_detect g victim_pid =
    report victim_pid (detect_rounds (suc max_procs) g max_procs 0 minus_one)

unfoldable pub deadlock_resource_name : ℤ → String
deadlock_resource_name rid =
    if eq_int rid (pos 0)
    then "LandingPad"
    else if eq_int rid (pos 1)
    then "ChargeStation"
    else if eq_int rid (pos 2)
    then "CommChannel"
    else "Unknown"
