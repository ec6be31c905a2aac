-- ===== src/Json.antt =====
-- The text that the program prints: `snprintf` into buffers of a fixed size, and the printers of
-- src/thread.c, src/pcb.c, src/memory.c, src/sync.c, src/filesystem.c and src/scheduler.c. A printer
-- that writes piece by piece keeps the length that the whole text would have; where that is larger
-- than the buffer, C goes on writing behind its end, and the result is `none`.
pub mod Fits
pub mod Snapshot
mod Tests
use fleetos.Base.{
  ℕ, zero, suc, ◌+◌, ◌-◌, ◌%◌, ◌<◌, Bool, true, false, ◌&&◌, ◌||◌, List, [], ◌∷◌, ◌++◌, map, length,
  take, get_or, ltb, ◌==◌, if◌then◌else◌, min, keep_if, ℤ, pos, minus_one, eq_int, Option, none,
  some, bytes, print_int, has_prefix,
}
use fleetos.Types.{
  ThreadState, state_to_string, priority_to_string, block_reason_to_string, max_resources,
}
use fleetos.Thread.{Tcb}
use fleetos.Process.{Pcb, select_primary_thread}
use fleetos.Memory.{PhysicalMemory}
use fleetos.Sync.{BoundedBuffer, ring_buffer_size}
use fleetos.FileSystem.{FileSystem, FileEntry}
use fleetos.Ready.{ReadyQueue, max_ready_queue}
use fleetos.Scheduler.{Scheduler, is_rr}

-- One `snprintf` at the start of a buffer.
unfoldable pub snprintf : ℕ → List ℕ → List ℕ
snprintf size text = take (size - 1) text

-- A buffer's text, and `pos`, the length of all that was to be written.
pub record Output : Type 0 where
  pub text : List ℕ
  pub position : ℕ

abbrev pub nothing : Output
nothing = record { text = []; position = 0 }

-- `pos += snprintf(buf + pos, bufsize - pos, ...);`
unfoldable pub write_piece : ℕ → List ℕ → Output → Option Output
write_piece size piece out =
    if ltb size out.position
    then none
    else some (record {
      text = take (size - 1) (out.text ++ piece);
      position = out.position + length piece;
    })

unfoldable pub write_pieces : ℕ → List (List ℕ) → Output → Option Output
write_pieces size [] out = some out
write_pieces size (p ∷ ps) out = elim (write_piece size p out) [
  | none ↦ none
  | some next ↦ write_pieces size ps next
]

-- `if (i > 0) ",";` and the item, for each of them.
unfoldable pub after_comma : List (List ℕ) → List (List ℕ)
after_comma [] = []
after_comma (x ∷ xs) = bytes "," ∷ x ∷ after_comma xs

unfoldable pub separated : List (List ℕ) → List (List ℕ)
separated [] = []
separated (x ∷ xs) = x ∷ after_comma xs

unfoldable pub thread_state_string : ThreadState → List ℕ
thread_state_string ThreadState.ready = bytes "T_READY"
thread_state_string ThreadState.running = bytes "T_RUNNING"
thread_state_string ThreadState.blocked = bytes "T_BLOCKED"
thread_state_string ThreadState.done = bytes "T_DONE"

unfoldable pub thread_to_json : Tcb → ℕ → List ℕ
thread_to_json t size = snprintf size (
    bytes "{\"tid\":"
    ++ print_int t.tid
    ++ bytes ",\"state\":\""
    ++ thread_state_string t.state
    ++ bytes "\",\"local_pc\":"
    ++ print_int (pos t.local_pc)
    ++ bytes ",\"wait_reason\":\""
    ++ bytes (block_reason_to_string t.wait_reason)
    ++ bytes "\",\"burst_remaining\":"
    ++ print_int t.burst_remaining
    ++ bytes "}")

-- What the three printers of a process share.
unfoldable pub pcb_fields : Pcb → List ℕ
pcb_fields p =
    bytes "{\"pid\":"
    ++ print_int p.pid
    ++ bytes ",\"name\":\""
    ++ p.name
    ++ bytes "\",\"state\":\""
    ++ bytes (state_to_string p.state)
    ++ bytes "\",\"priority\":\""
    ++ bytes (priority_to_string p.priority)
    ++ bytes "\",\"pc\":"
    ++ print_int (pos p.program_counter)
    ++ bytes ",\"burst_remaining\":"
    ++ print_int p.burst_remaining
    ++ bytes ",\"wait_time\":"
    ++ print_int (pos p.wait_time)
    ++ bytes ",\"blocked_reason\":\""
    ++ bytes (block_reason_to_string p.blocked_reason)
    ++ bytes "\",\"command_ticks_remaining\":"
    ++ print_int p.command_ticks_remaining

unfoldable pub pcb_to_json : Pcb → ℕ → List ℕ
pcb_to_json p size = snprintf size (pcb_fields p ++ bytes "}")

-- With a null thread the field `thread` has no value.
unfoldable pub pcb_to_json_threaded : Pcb → Option Tcb → ℕ → List ℕ
pcb_to_json_threaded p tcb size = snprintf size (
    pcb_fields p
    ++ bytes ",\"completion_tick\":"
    ++ print_int p.completion_tick
    ++ bytes ",\"thread\":"
    ++ (elim tcb [ none ↦ [] | some t ↦ thread_to_json t 256 ])
    ++ bytes "}")

unfoldable pub primary_text : Option Tcb → List ℕ
primary_text none = snprintf 256 (bytes "{\"tid\":-1}")
primary_text (some t) = thread_to_json t 256

-- The threads of the process, in the order of the array; an empty slot is `none`.
unfoldable pub thread_items : List (Option Tcb) → ℤ → List (List ℕ)
thread_items [] owner = []
thread_items (none ∷ threads) owner = thread_items threads owner
thread_items (some t ∷ threads) owner =
    if eq_int t.owner_pid owner
    then thread_to_json t 256 ∷ thread_items threads owner
    else thread_items threads owner

unfoldable pub pcb_to_json_with_threads : Pcb → List (Option Tcb) → ℕ → Option Output
pcb_to_json_with_threads p threads size =
    write_pieces size
      ((pcb_fields p
            ++ bytes ",\"completion_tick\":"
            ++ print_int p.completion_tick
            ++ bytes ",\"thread\":"
            ++ primary_text (select_primary_thread threads p.pid)
            ++ bytes ",\"threads\":[")
          ∷ separated (thread_items threads p.pid)
        ++ bytes "]}" ∷ [])
      nothing

-- One frame, in an array of 64 bytes.
unfoldable pub frame_item : ℕ → ℤ → List ℕ
frame_item i pid =
    snprintf 64
      (bytes "{\"frame\":" ++ print_int (pos i) ++ bytes ",\"pid\":" ++ print_int pid ++ bytes "}")

unfoldable pub frame_items : ℕ → List ℤ → List (List ℕ)
frame_items i [] = []
frame_items i (f ∷ frames) = frame_item i f ∷ frame_items (suc i) frames

unfoldable pub mem_pieces : PhysicalMemory → List (List ℕ)
mem_pieces m =
    (bytes "\"free_frames\":" ++ print_int m.free_frame_count ++ bytes ",\"framemap\":[")
      ∷ separated (frame_items 0 m.frames)
    ++ bytes "]" ∷ []

unfoldable pub mem_to_json : PhysicalMemory → ℕ → Option Output
mem_to_json m size = write_pieces size (mem_pieces m) nothing

-- The stored items from index `o` on, `n` of them.
unfoldable pub buffer_items : List ℤ → (o n : ℕ) → List (List ℕ)
buffer_items buffer o zero = []
buffer_items buffer o (suc n) =
    print_int (get_or buffer (o % ring_buffer_size) (pos 0)) ∷ buffer_items buffer (suc o) n

unfoldable pub buffer_pieces : BoundedBuffer → List (List ℕ)
buffer_pieces b =
    (bytes "{\"count\":"
        ++ print_int (pos b.count)
        ++ bytes ",\"in\":"
        ++ print_int (pos b.in_index)
        ++ bytes ",\"out\":"
        ++ print_int (pos b.out_index)
        ++ bytes ",\"mutex_owner\":"
        ++ print_int b.mutex.owner_pid
        ++ bytes ",\"items\":[")
      ∷ separated (buffer_items b.buffer b.out_index (min b.count ring_buffer_size))
    ++ bytes "]}" ∷ []

unfoldable pub buffer_to_json : BoundedBuffer → ℕ → Option Output
buffer_to_json b size = write_pieces size (buffer_pieces b) nothing

unfoldable pub file_item : FileEntry → List ℕ
file_item f =
    bytes "{\"path\":\"" ++ f.path ++ bytes "\",\"size\":" ++ print_int (pos f.size) ++ bytes "}"

abbrev pub is_used : FileEntry → Bool
is_used f = f.used

unfoldable pub fs_to_json : FileSystem → ℕ → Option Output
fs_to_json fs size =
    write_pieces size
      ((bytes "\"file_count\":" ++ print_int (pos fs.file_count) ++ bytes ",\"files\":[")
          ∷ separated (map file_item (keep_if is_used fs.files))
        ++ bytes "]" ∷ [])
      nothing

abbrev pub is_listed : List ℕ → FileEntry → Bool
is_listed prefix f = f.used && has_prefix prefix f.path

-- A null prefix is the empty one. The number of files listed comes with the text.
unfoldable pub fs_list : FileSystem → List ℕ → ℕ → Option Output × ℕ
fs_list fs prefix size =
    let listed = keep_if (is_listed prefix) fs.files in
    (
      write_pieces size (bytes "[" ∷ separated (map file_item listed) ++ bytes "]" ∷ []) nothing,
      length listed,
    )

-- The threads of a ring from its place `i` on, `n` of them.
unfoldable pub queue_items : (ℕ → Tcb) → ReadyQueue → (i n : ℕ) → List (List ℕ)
queue_items heap q i zero = []
queue_items heap q i (suc n) =
    print_int (heap (q.queue ((q.head + i) % max_ready_queue))).tid ∷ queue_items heap q (suc i) n

abbrev pub queue_pieces : Scheduler → ReadyQueue → List (List ℕ)
queue_pieces s q = separated (queue_items s.threads q 0 q.count)

-- `current_thread ? current_thread->tid : -1`
abbrev pub current_tid : Scheduler → Option ℕ → ℤ
current_tid s none = minus_one
current_tid s (some t) = (s.threads t).tid

abbrev pub level_pieces : Scheduler → ℕ → List (List ℕ)
level_pieces s q =
    (bytes ",\"q" ++ print_int (pos q) ++ bytes "\":[") ∷ queue_pieces s (s.mlfq_queues q)
    ++ bytes "]" ∷ []

unfoldable pub scheduler_pieces : Scheduler → List (List ℕ)
scheduler_pieces s =
    let head =
      bytes "\",\"current_tid\":"
      ++ print_int (current_tid s s.current_thread)
      ++ bytes ",\"quantum_remaining\":"
      ++ print_int s.quantum_remaining in
    if is_rr s.sched_mode
    then (bytes "{\"mode\":\"RR" ++ head ++ bytes ",\"ready\":[") ∷ queue_pieces s s.rr_ready
      ++ bytes "]}" ∷ []
    else (bytes "{\"mode\":\"MLFQ"
          ++ head
          ++ bytes ",\"current_queue\":"
          ++ print_int (pos s.current_queue)
          ++ bytes ",\"priority_boosts\":"
          ++ print_int (pos s.priority_boost_count))
        ∷ level_pieces s 0
      ++ level_pieces s 1
      ++ level_pieces s 2
      ++ bytes "}" ∷ []

unfoldable pub scheduler_to_json : Scheduler → ℕ → Option Output
scheduler_to_json s size = write_pieces size (scheduler_pieces s) nothing
