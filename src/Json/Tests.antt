-- ===== src/Json/Tests.antt =====
-- Runs of the printers, and the theorems about them at concrete inputs.
use fleetos.Base.{
  ◌≡◌, refl, arith, [], ◌∷◌, replicate, pos, minus_one, some, bytes, print_int, decimal_loop,
}
use fleetos.Types.{io_block, compute, normal, block_reason_to_string, ThreadState}
use fleetos.Thread.{Tcb}
use fleetos.Memory.{PhysicalMemory}
use fleetos.Json.{
  nothing, thread_to_json, thread_state_string, snprintf, mem_to_json, write_pieces, write_piece,
}
use fleetos.Json.Fits.{whole, filled, memory_text, mem_to_json-whole, write_pieces-whole}

abbrev waiting_thread : Tcb
waiting_thread = record {
  tid = pos 3;
  owner_pid = pos 1;
  state = ThreadState.blocked;
  local_pc = 2;
  wait_reason = io_block;
  commands = compute ∷ [];
  command_count = 1;
  burst_remaining = pos 15;
  command_ticks_remaining = pos 1;
  priority = normal;
  mlfq_level = minus_one;
}

thread_text :
    thread_to_json waiting_thread 256
    ≡ bytes
        "{\"tid\":3,\"state\":\"T_BLOCKED\",\"local_pc\":2,\"wait_reason\":\"IO_BLOCK\",\"burst_remaining\":15}"
unfolding thread_to_json thread_state_string snprintf print_int decimal_loop block_reason_to_string
thread_text = refl

-- A buffer of four bytes takes three and a closing NUL.
cut_off :
    write_pieces 4 (bytes "abc" ∷ bytes "de" ∷ []) nothing
    ≡ some (record { text = bytes "abc"; position = 5 })
unfolding write_pieces write_piece
cut_off = refl

abbrev half_full : PhysicalMemory
half_full = record {
  frames = pos 0 ∷ pos 0 ∷ pos 1 ∷ replicate 13 minus_one;
  frame_pages = pos 0 ∷ pos 1 ∷ pos 0 ∷ replicate 13 minus_one;
  last_access = replicate 16 0;
  free_frame_count = pos 13;
  current_tick = 4;
}

mem_to_json-whole_example : mem_to_json half_full 1024 ≡ some (filled (memory_text half_full))
mem_to_json-whole_example = mem_to_json-whole half_full refl (ground arith) (omega arith)

write_pieces-whole_example :
    write_pieces 6 (bytes "abc" ∷ bytes "de" ∷ []) nothing
    ≡ some (whole (bytes "abc" ∷ bytes "de" ∷ []))
write_pieces-whole_example = write_pieces-whole 6 (bytes "abc" ∷ bytes "de" ∷ []) (omega arith)
