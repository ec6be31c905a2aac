-- ===== src/Kernel/Metrics/Exact.antt =====
-- The numbers of `kernel_get_metrics` of src/kernel.c against the list of processes.
use fleetos.Base.{
  ℕ, suc, ◌+◌, ◌≡◌, refl, ap, ◌∙◌, if◌then◌else◌, ltb, lt→ltb, true, Bool-cases, inl, inr, arith,
  List, [], ◌∷◌, map, length, count_if, ℤ, ◌+ℤ◌, sub_nat, pos, negsuc, index, is_neg,
}
use fleetos.Types.{ProcessState, same_process_state}
use fleetos.Process.{Pcb}
use fleetos.Kernel.{Kernel}
use fleetos.Kernel.Metrics.{
  Average, Sums, no_sums, sum_turnaround, sum_process, sum_processes, average, kernel_get_metrics,
}

-- `f` on the entries from the left, from `a` on.
unfoldable pub fold_left {ℓ κ} : {A : Type ℓ} {B : Type κ} → (B → A → B) → B → List A → B
fold_left f a [] = a
fold_left f a (x ∷ xs) = fold_left f (f a x) xs

abbrev pub larger : ℕ → ℕ → ℕ
larger a b = if ltb a b then b else a

abbrev pub larger_int : ℤ → ℤ → ℤ
larger_int (pos a) (pos b) = pos (larger a b)
larger_int (pos a) (negsuc b) = pos a
larger_int (negsuc a) (pos b) = pos b
larger_int (negsuc a) (negsuc b) = if ltb b a then negsuc b else negsuc a

abbrev pub waits : List Pcb → List ℕ
waits ps = map (λ (p : Pcb). p.wait_time) ps

-- From arrival to completion, for the processes that have a completion tick.
abbrev pub turnarounds : List Pcb → List ℤ
turnarounds [] = []
turnarounds (p ∷ ps) =
    if is_neg p.completion_tick
    then turnarounds ps
    else sub_nat (index p.completion_tick) p.arrival_time ∷ turnarounds ps

abbrev pub ended : List Pcb → ℕ
ended ps = count_if (λ (p : Pcb). same_process_state p.state ProcessState.terminated) ps

-- The sum over the number of entries, and 0 over 1 for none.
abbrev pub mean : List ℤ → Average
mean [] = record { sum = pos 0; over = 1 }
mean (x ∷ xs) = record { sum = fold_left ◌+ℤ◌ (pos 0) (x ∷ xs); over = length (x ∷ xs) }

-- What the loop over `ps` makes of its local variables.
record Summed (ps : List Pcb) (a b : Sums) : Type 0 where
  total_wait : b.total_wait ≡ fold_left ◌+◌ a.total_wait (waits ps)
  max_wait : b.max_wait ≡ fold_left larger a.max_wait (waits ps)
  term_count : b.term_count ≡ a.term_count + ended ps
  total_turnaround : b.total_turnaround ≡ fold_left ◌+ℤ◌ a.total_turnaround (turnarounds ps)
  max_turnaround : b.max_turnaround ≡ fold_left larger_int a.max_turnaround (turnarounds ps)
  turnaround_count : b.turnaround_count ≡ a.turnaround_count + length (turnarounds ps)

-- One round.
sum_process-Summed : (p : Pcb) (a : Sums) → Summed (p ∷ []) a (sum_process p a)
unfolding sum_process sum_turnaround fold_left
sum_process-Summed p a = record {
  total_wait = ground arith;
  max_wait = ground arith;
  term_count = ground arith;
  total_turnaround = ground arith;
  max_turnaround = ground arith;
  turnaround_count = ground arith;
}

turnarounds-next :
    (f : ℤ → ℤ → ℤ) (a : ℤ) (p : Pcb) (ps : List Pcb)
    → fold_left f (fold_left f a (turnarounds (p ∷ []))) (turnarounds ps)
      ≡ fold_left f a (turnarounds (p ∷ ps))
unfolding fold_left
turnarounds-next f a p ps = elim (Bool-cases (is_neg p.completion_tick)) [
  | inl going ↦ rw going refl
  | inr closed ↦ rw closed refl
]

Summed-next :
    (p : Pcb) (ps : List Pcb) (a b c : Sums)
    → Summed (p ∷ []) a b
    → Summed ps b c
    → Summed (p ∷ ps) a c
unfolding fold_left
Summed-next p ps a b c v w = record {
  total_wait = w.total_wait ∙ ap (λ n. fold_left ◌+◌ n (waits ps)) v.total_wait;
  max_wait = w.max_wait ∙ ap (λ n. fold_left larger n (waits ps)) v.max_wait;
  term_count = ground (arith, v.term_count, w.term_count);
  total_turnaround =
      w.total_turnaround
      ∙ ap (λ n. fold_left ◌+ℤ◌ n (turnarounds ps)) v.total_turnaround
      ∙ turnarounds-next ◌+ℤ◌ a.total_turnaround p ps;
  max_turnaround =
      w.max_turnaround
      ∙ ap (λ n. fold_left larger_int n (turnarounds ps)) v.max_turnaround
      ∙ turnarounds-next larger_int a.max_turnaround p ps;
  turnaround_count = ground (arith, v.turnaround_count, w.turnaround_count);
}

sum_processes-Summed : (ps : List Pcb) (a : Sums) → Summed ps a (sum_processes ps a)
unfolding sum_processes fold_left
sum_processes-Summed [] a = record {
  total_wait = refl;
  max_wait = refl;
  term_count = omega arith;
  total_turnaround = refl;
  max_turnaround = refl;
  turnaround_count = omega arith;
}
sum_processes-Summed (p ∷ ps) a =
    Summed-next p ps a (sum_process p a) (sum_processes ps (sum_process p a))
      (sum_process-Summed p a) (sum_processes-Summed ps (sum_process p a))

average-mean :
    (sum : ℤ) (n : ℕ) (xs : List ℤ)
    → sum ≡ fold_left ◌+ℤ◌ (pos 0) xs
    → n ≡ length xs
    → average sum n ≡ mean xs
unfolding average
average-mean sum n [] e size = rw size refl
average-mean sum n (x ∷ xs) e size =
    let some_entry : ltb 0 (suc (length xs)) ≡ true = lt→ltb 0 (suc (length xs)) (omega arith) in
    rw (size, e, some_entry) refl

-- The total of natural waits is that of the same integers.
pos_total :
    (a : ℕ) (ps : List Pcb)
    → pos (fold_left ◌+◌ a (waits ps)) ≡ fold_left ◌+ℤ◌ (pos a) (map pos (waits ps))
unfolding fold_left
pos_total a [] = refl
pos_total a (p ∷ ps) = pos_total (a + p.wait_time) ps

waits_length : (ps : List Pcb) → length ps ≡ length (map pos (waits ps))
waits_length [] = refl
waits_length (p ∷ ps) = ap suc (waits_length ps)

-- The metrics of a kernel, from its process table: the total and the longest wait are the sum and the
-- greatest of the wait times, 0 for none; as many have terminated as are in that state; the longest
-- turnaround is the greatest of 0 and the turnarounds, from arrival to completion, of the processes
-- with a completion tick; the two averages are the sums of the waits and of these turnarounds, each
-- over their number, and 0 for none.
pub kernel_get_metrics-exact :
    (k : Kernel)
    → let m = kernel_get_metrics k in
      (m.total_wait ≡ fold_left ◌+◌ 0 (waits k.all_procs))
      × (m.max_wait ≡ fold_left larger 0 (waits k.all_procs))
      × (m.terminated_count ≡ ended k.all_procs)
      × (m.max_turnaround ≡ fold_left larger_int (pos 0) (turnarounds k.all_procs))
      × (m.avg_wait ≡ mean (map pos (waits k.all_procs)))
      × (m.avg_turnaround ≡ mean (turnarounds k.all_procs))
unfolding kernel_get_metrics
kernel_get_metrics-exact k =
    let v = sum_processes-Summed k.all_procs no_sums in
    (
      v.total_wait,
      v.max_wait,
      v.term_count ∙ omega arith,
      v.max_turnaround,
      average-mean _ _ (map pos (waits k.all_procs)) (ap pos v.total_wait ∙ pos_total 0 k.all_procs)
          (waits_length k.all_procs),
      average-mean _ _ (turnarounds k.all_procs) v.total_turnaround
          (v.turnaround_count ∙ omega arith),
    )
