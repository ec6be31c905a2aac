-- ===== src/Kernel/Run.antt =====
-- `kernel_run` of src/kernel.c: rounds until the tick limit, the end of all processes or `quit`.
use fleetos.Base.{
  ℕ, zero, suc, ◌&&◌, not, Bool, List, leb, if◌then◌else◌, index, is_positive, Option, none, some,
}
use fleetos.Kernel.{Kernel}
use fleetos.Kernel.Tick.{kernel_stages, any_alive, count_tick}
use fleetos.Kernel.Interactive.{process_interactive}

-- `config.max_ticks > 0 && current_tick >= config.max_ticks`
abbrev pub at_limit : Kernel → Bool
at_limit k = is_positive k.config.max_ticks && leb (index k.config.max_ticks) k.current_tick

-- `if (config.interactive) process_interactive();`
unfoldable pub listen : List (List ℕ) → Kernel → Option (Kernel × List (List ℕ))
listen lines k = if k.config.interactive then process_interactive lines k else some (k, lines)

abbrev pub with_lines :
    Option (Kernel × List (List ℕ)) → (Kernel → List (List ℕ) → Option Kernel) → Option Kernel
with_lines none next = none
with_lines (some (k, lines)) next = next k lines

-- `running` is tested again right after the lines, and nothing else clears it.
abbrev pub with_stages : Option Kernel → (Kernel → Option Kernel) → Option Kernel
with_stages none next = none
with_stages (some k) next = if any_alive k then next (count_tick k) else some k

-- The loop, for at most `fuel` rounds; `none` when they do not suffice.
unfoldable pub kernel_run : ℕ → List (List ℕ) → Kernel → Option Kernel
kernel_run zero lines k = none
kernel_run (suc fuel) lines k =
    if not k.running
    then some k
    else if at_limit k
    then some k
    else with_lines (listen lines k) (λ (a : Kernel) (rest : List (List ℕ)).
      if not a.running then some a else with_stages (kernel_stages a) (kernel_run fuel rest))
