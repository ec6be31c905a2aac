-- ===== src/Main/Tests.antt =====
-- The command lines of src/main.c at concrete inputs, and the runs that one of them asks for.
use fleetos.Base.{◌≡◌, true, pos, List, [], ◌∷◌, if◌then◌else◌, bytes}
use fleetos.Main.{
  CommandOption, mode, ticks, crash, compare, default_config, accepted, exited, parse_options,
}
use fleetos.Kernel.{KernelConfig}
use fleetos.Main.Options.{all_valid, described, exit_status, parse_options-described}

abbrev short_line : List CommandOption
short_line = ticks (bytes "40") ∷ mode (bytes "mlfq") ∷ crash ∷ ticks (bytes "-3") ∷ []

parse_options-described_example : parse_options short_line default_config ≡ (
    if all_valid short_line
    then accepted (described short_line default_config)
    else exited (exit_status short_line))
parse_options-described_example = parse_options-described short_line default_config

abbrev compare_line : List CommandOption
compare_line = ticks (bytes "40") ∷ compare ∷ []

abbrev compared_config : KernelConfig
compared_config = record default_config { max_ticks = pos 40; compare_enabled = true }
