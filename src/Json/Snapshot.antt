-- ===== src/Json/Snapshot.antt =====
-- The state snapshot that the loop of `kernel_run` of src/kernel.c prints every five ticks.
use fleetos.Base.{
  ℕ, ◌==◌, ◌%◌, List, [], ◌∷◌, ◌++◌, map, if◌then◌else◌, keep_if, Option, none, some, bytes,
}
use fleetos.Thread.{Tcb}
use fleetos.Process.{Pcb}
use fleetos.Kernel.{Kernel, all_threads}
use fleetos.Kernel.Tick.{is_alive, snapshot_interval, sync_snapshot}
use fleetos.Logger.{logger_snapshot}
use fleetos.Json.{
  Output, nothing, write_pieces, pcb_to_json_with_threads, mem_to_json, scheduler_to_json,
  fs_to_json, buffer_to_json,
}

abbrev pub with_output : Option Output → (List ℕ → Option (List (List ℕ))) → Option (List (List ℕ))
with_output none next = none
with_output (some out) next = next out.text

-- `if (added > 0) ",";` and the process.
abbrev pub add_item : List (List ℕ) → List ℕ → List (List ℕ)
add_item [] text = text ∷ []
add_item (x ∷ xs) text = (x ∷ xs) ++ bytes "," ∷ text ∷ []

-- The processes, after those that are done.
unfoldable pub proc_pieces : List (Option Tcb) → List Pcb → List (List ℕ) → Option (List (List ℕ))
proc_pieces threads [] done = some done
proc_pieces threads (p ∷ ps) done =
    with_output (pcb_to_json_with_threads p threads 2048)
      (λ (text : List ℕ). proc_pieces threads ps (add_item done text))

-- The pieces after the processes.
unfoldable pub module_pieces : Kernel → Option (List (List ℕ))
module_pieces k = with_output (mem_to_json k.mem 1024) (λ (mem_buf : List ℕ).
    with_output (scheduler_to_json k.sched 1024) (λ (sched_buf : List ℕ).
      with_output (fs_to_json k.fs 1024) (λ (fs_buf : List ℕ).
        with_output (buffer_to_json k.sensor_buf 512) (λ (buf_buf : List ℕ). some (
          bytes "]"
          ∷ (bytes ",\"memory\":{" ++ mem_buf ++ bytes "}")
          ∷ (bytes ",\"scheduler\":" ++ sched_buf)
          ∷ (bytes ",\"filesystem\":{" ++ fs_buf ++ bytes "}")
          ∷ (bytes ",\"buffer\":" ++ buf_buf)
          ∷ bytes "}"
          ∷ [])))))

abbrev pub join_pieces : Option (List (List ℕ)) → Option (List (List ℕ)) → Option Output
join_pieces (some procs) (some modules) =
    write_pieces 16384 (bytes "{" ∷ bytes "\"procs\":[" ∷ procs ++ modules) nothing
join_pieces _ _ = none

-- The text of the snapshot of a kernel whose processes are up to date.
unfoldable pub snapshot_text : Kernel → Option Output
snapshot_text k =
    join_pieces (proc_pieces (map some (all_threads k)) (keep_if is_alive k.all_procs) [])
      (module_pieces k)

-- What stage 9 prints.
unfoldable pub print_snapshot : Kernel → Option (List ℕ)
print_snapshot k =
    if k.current_tick % snapshot_interval == 0
    then (elim (snapshot_text (sync_snapshot k)) [
      | none ↦ none
      | some out ↦ some (logger_snapshot k.current_tick out.text)
    ])
    else some []
