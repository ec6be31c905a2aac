-- ===== src/Main/Options.antt =====
-- What the option loop of src/main.c makes of any command line.
use fleetos.Base.{
  ℕ, ◌≡◌, refl, ap, ◌∙◌, Bool, true, false, ◌||◌, ◌&&◌, if◌then◌else◌, Bool-cases, inl, inr, List,
  [], ◌∷◌, any_of, ℤ, is_positive, bytes, same_text,
}
use fleetos.Types.{SchedMode, rr, mlfq}
use fleetos.Kernel.{KernelConfig}
use fleetos.Kernel.Interactive.{atoi}
use fleetos.Main.{
  CommandOption, mode, ticks, deadlock, crash, compare, interactive, help, unknown, Parsed,
  accepted, exited, parse_mode, parse_ticks, parse_option, parse_options,
}

-- An option that lets the loop go on.
abbrev pub is_valid : CommandOption → Bool
is_valid (mode optarg) = same_text optarg (bytes "rr") || same_text optarg (bytes "mlfq")
is_valid (ticks optarg) = is_positive (atoi optarg)
is_valid help = false
is_valid unknown = false
is_valid _ = true

-- The status of the first option that does not.
abbrev pub exit_status : List CommandOption → ℕ
exit_status [] = 0
exit_status (help ∷ os) = 0
exit_status (o ∷ os) = if is_valid o then exit_status os else 1

abbrev pub all_valid : List CommandOption → Bool
all_valid [] = true
all_valid (o ∷ os) = is_valid o && all_valid os

abbrev is_deadlock : CommandOption → Bool
is_deadlock deadlock = true
is_deadlock _ = false

abbrev is_crash : CommandOption → Bool
is_crash crash = true
is_crash _ = false

abbrev is_compare : CommandOption → Bool
is_compare compare = true
is_compare _ = false

abbrev is_interactive : CommandOption → Bool
is_interactive interactive = true
is_interactive _ = false

-- The mode and the limit that the last such option gives, or else the ones before.
abbrev last_mode : List CommandOption → SchedMode → SchedMode
last_mode [] m = m
last_mode (mode optarg ∷ os) m = last_mode os (if same_text optarg (bytes "rr") then rr else mlfq)
last_mode (_ ∷ os) m = last_mode os m

abbrev last_ticks : List CommandOption → ℤ → ℤ
last_ticks [] n = n
last_ticks (ticks optarg ∷ os) n = last_ticks os (atoi optarg)
last_ticks (_ ∷ os) n = last_ticks os n

-- What the options say, without the loop.
abbrev pub described : List CommandOption → KernelConfig → KernelConfig
described os cfg = record {
  sched_mode = last_mode os cfg.sched_mode;
  max_ticks = last_ticks os cfg.max_ticks;
  deadlock_enabled = cfg.deadlock_enabled || any_of is_deadlock os;
  crash_enabled = cfg.crash_enabled || any_of is_crash os;
  compare_enabled = cfg.compare_enabled || any_of is_compare os;
  interactive = cfg.interactive || any_of is_interactive os;
}

or_true : (b : Bool) → true ≡ b || true
or_true true = refl
or_true false = refl

or_false : (b : Bool) → b ≡ b || false
or_false true = refl
or_false false = refl

-- The verdict on the options, with the flags as they come out.
abbrev verdict : List CommandOption → KernelConfig → Parsed
verdict os cfg = if all_valid os then accepted cfg else exited (exit_status os)

described_nothing : (cfg : KernelConfig) → cfg ≡ described [] cfg
described_nothing cfg = λ i. record {
  sched_mode = cfg.sched_mode;
  max_ticks = cfg.max_ticks;
  deadlock_enabled = or_false cfg.deadlock_enabled i;
  crash_enabled = or_false cfg.crash_enabled i;
  compare_enabled = or_false cfg.compare_enabled i;
  interactive = or_false cfg.interactive i;
}

-- When all options are valid, the loop gives the last mode and the last limit on the command line,
-- and a flag is set when its option occurs. Else `main` returns at the first option that is not: with
-- 0 for help, with 1 for an unknown option, a mode other than rr and mlfq, or a limit that is not
-- positive.
pub parse_options-described :
    (os : List CommandOption) (cfg : KernelConfig)
    → parse_options os cfg
      ≡ (if all_valid os then accepted (described os cfg) else exited (exit_status os))
unfolding parse_options parse_option parse_mode parse_ticks
parse_options-described [] cfg = ap accepted (described_nothing cfg)
parse_options-described (mode optarg ∷ os) cfg = elim (Bool-cases (same_text optarg (bytes "rr"))) [
  | inl round ↦ rw round (parse_options-described os (record cfg { sched_mode = rr }))
  | inr other ↦ elim (Bool-cases (same_text optarg (bytes "mlfq"))) [
    | inl levels ↦
        rw (other, levels) (parse_options-described os (record cfg { sched_mode = mlfq }))
    | inr neither ↦ rw (other, neither) refl
  ]
]
parse_options-described (ticks optarg ∷ os) cfg = elim (Bool-cases (is_positive (atoi optarg))) [
  | inl good ↦ rw good (parse_options-described os (record cfg { max_ticks = atoi optarg }))
  | inr bad ↦ rw bad refl
]
parse_options-described (deadlock ∷ os) cfg =
    parse_options-described os (record cfg { deadlock_enabled = true })
    ∙ ap (λ b. verdict os (record (described os cfg) { deadlock_enabled = b }))
        (or_true cfg.deadlock_enabled)
parse_options-described (crash ∷ os) cfg =
    parse_options-described os (record cfg { crash_enabled = true })
    ∙ ap (λ b. verdict os (record (described os cfg) { crash_enabled = b }))
        (or_true cfg.crash_enabled)
parse_options-described (compare ∷ os) cfg =
    parse_options-described os (record cfg { compare_enabled = true })
    ∙ ap (λ b. verdict os (record (described os cfg) { compare_enabled = b }))
        (or_true cfg.compare_enabled)
parse_options-described (interactive ∷ os) cfg =
    parse_options-described os (record cfg { interactive = true })
    ∙ ap (λ b. verdict os (record (described os cfg) { interactive = b })) (or_true cfg.interactive)
parse_options-described (help ∷ os) cfg = refl
parse_options-described (unknown ∷ os) cfg = refl
