-- ===== src/Main.antt =====
-- src/main.c: the command line and the runs it asks for. `getopt_long` is not modelled: a command line
-- is the list of the options that it returns, with their arguments. What is printed is left out.
pub mod Options
pub mod Returns
mod Tests
use fleetos.Base.{
  ℕ, Bool, true, false, List, [], ◌∷◌, if◌then◌else◌, not, ℤ, pos, is_positive, Option, none, some,
  bytes, same_text,
}
use fleetos.Types.{SchedMode, rr, mlfq}
use fleetos.Kernel.{Kernel, KernelConfig}
use fleetos.Kernel.Boot.{Allocations, kernel_init, kernel_shutdown}
use fleetos.Kernel.Run.{kernel_run}
use fleetos.Kernel.Interactive.{atoi}
use fleetos.Kernel.Metrics.{KernelMetrics, kernel_get_metrics}

-- One result of `getopt_long`; `unknown` is any other character, such as '?'.
pub data CommandOption : Type 0 where
  mode : List ℕ → CommandOption
  ticks : List ℕ → CommandOption
  deadlock crash compare interactive help unknown : CommandOption

abbrev pub default_config : KernelConfig
default_config = record {
  sched_mode = rr;
  max_ticks = pos 0;
  deadlock_enabled = false;
  crash_enabled = false;
  compare_enabled = false;
  interactive = false;
}

-- The loop goes on with a configuration, or `main` returns.
pub data Parsed : Type 0 where
  accepted : KernelConfig → Parsed
  exited : ℕ → Parsed

unfoldable pub parse_mode : List ℕ → KernelConfig → Parsed
parse_mode optarg cfg =
    if same_text optarg (bytes "rr")
    then accepted (record cfg { sched_mode = rr })
    else if same_text optarg (bytes "mlfq")
    then accepted (record cfg { sched_mode = mlfq })
    else exited 1

unfoldable pub parse_ticks : List ℕ → KernelConfig → Parsed
parse_ticks optarg cfg =
    if is_positive (atoi optarg)
    then accepted (record cfg { max_ticks = atoi optarg })
    else exited 1

-- The switch on one option.
unfoldable pub parse_option : CommandOption → KernelConfig → Parsed
parse_option (mode optarg) cfg = parse_mode optarg cfg
parse_option (ticks optarg) cfg = parse_ticks optarg cfg
parse_option deadlock cfg = accepted (record cfg { deadlock_enabled = true })
parse_option crash cfg = accepted (record cfg { crash_enabled = true })
parse_option compare cfg = accepted (record cfg { compare_enabled = true })
parse_option interactive cfg = accepted (record cfg { interactive = true })
parse_option help cfg = exited 0
parse_option unknown cfg = exited 1

abbrev pub then_parse : Parsed → (KernelConfig → Parsed) → Parsed
then_parse (accepted cfg) next = next cfg
then_parse (exited status) next = exited status

-- The loop over the options.
unfoldable pub parse_options : List CommandOption → KernelConfig → Parsed
parse_options [] cfg = accepted cfg
parse_options (o ∷ os) cfg = then_parse (parse_option o cfg) (parse_options os)

-- What the machine gives to a run: memory, and rounds of the loop.
pub record Machine : Type 0 where
  pub memory : Allocations
  pub fuel : ℕ
  pub lines : List (List ℕ)

-- `kernel_init(config); kernel_run();`
unfoldable pub boot_and_run : Machine → KernelConfig → Kernel → Option Kernel
boot_and_run machine cfg k = elim (kernel_init cfg machine.memory k) [
  | none ↦ none
  | some start ↦ kernel_run machine.fuel machine.lines start
]

-- The metrics that the comparison prints, if there is one, and the kernel that is left.
pub record Outcome : Type 0 where
  pub status : ℕ
  pub comparison : Option (KernelMetrics × KernelMetrics)
  pub final : Kernel

-- The two runs of the comparison.
unfoldable pub compare_modes : Machine → Machine → KernelConfig → Kernel → Option Outcome
compare_modes first second cfg k = elim (boot_and_run first (record cfg { sched_mode = rr }) k) [
  | none ↦ none
  | some a ↦ (elim (boot_and_run second (record cfg { sched_mode = mlfq }) (kernel_shutdown a)) [
    | none ↦ none
    | some b ↦ some (record {
      status = 0;
      comparison = some (kernel_get_metrics a, kernel_get_metrics b);
      final = kernel_shutdown b;
    })
  ])
]

unfoldable pub run_once : Machine → KernelConfig → Kernel → Option Outcome
run_once machine cfg k = elim (boot_and_run machine cfg k) [
  | none ↦ none
  | some a ↦ some (record { status = 0; comparison = none; final = kernel_shutdown a })
]

abbrev pub on_parsed : Machine → Machine → Kernel → Parsed → Option Outcome
on_parsed first second k (exited status) =
    some (record { status = status; comparison = none; final = k })
on_parsed first second k (accepted cfg) =
    if cfg.compare_enabled then compare_modes first second cfg k else run_once first cfg k

unfoldable pub main : Machine → Machine → List CommandOption → Kernel → Option Outcome
main first second options k = on_parsed first second k (parse_options options default_config)
