-- ===== src/Logger/Line.antt =====
-- Each call of `logger_log` of src/logger.c prints one line.
use fleetos.Base.{
  ℕ, zero, suc, ◌+◌, ◌/◌, ◌%◌, ◌≡◌, refl, ap, sym, ◌∙◌, Bool, false, ◌==◌, ltb, Bool-cases, inl,
  inr, arith, List, [], ◌∷◌, ◌++◌, any_of, any_of-append, All, concat, append_assoc, length, ℤ, pos,
  negsuc, none, some, bytes, print_int, decimal_loop,
}
use fleetos.Logger.{
  LogLevel, debug, info, warn, error, critical, level_to_string, log_head, logger_log,
}

abbrev pub is_newline : ℕ → Bool
is_newline c = c == 10

-- A text with no line feed.
abbrev pub OneLine : List ℕ → Type 0
OneLine text = any_of is_newline text ≡ false

decimal_loop-OneLine :
    (fuel n : ℕ) (text : List ℕ) → OneLine text → OneLine (decimal_loop fuel n text)
unfolding decimal_loop
decimal_loop-OneLine zero n text h = h
decimal_loop-OneLine (suc fuel) n text h =
    ground (arith, decimal_loop-OneLine fuel (n / 10) ((48 + n % 10) ∷ text))

print_int-OneLine : (n : ℤ) → OneLine (print_int n)
unfolding print_int
print_int-OneLine (pos n) = decimal_loop-OneLine (suc n) n [] refl
print_int-OneLine (negsuc n) = decimal_loop-OneLine (suc (suc n)) (suc n) [] refl

level_to_string-OneLine : (l : LogLevel) → OneLine (bytes (level_to_string l))
unfolding level_to_string
level_to_string-OneLine debug = refl
level_to_string-OneLine info = refl
level_to_string-OneLine warn = refl
level_to_string-OneLine error = refl
level_to_string-OneLine critical = refl

concat-OneLine : (ps : List (List ℕ)) → All OneLine ps → OneLine (concat ps)
concat-OneLine [] h = refl
concat-OneLine (p ∷ ps) h = any_of-append is_newline p (concat ps) h.0 (concat-OneLine ps h.1)

log_head-OneLine :
    (tick : ℕ) (name : List ℕ) (level : LogLevel) (msg : List ℕ)
    → OneLine name
    → OneLine msg
    → OneLine (log_head tick name level msg)
unfolding log_head
log_head-OneLine tick name level msg hn hm =
    concat-OneLine
      (bytes "{\"tick\":"
        ∷ print_int (pos tick)
        ∷ bytes ",\"module\":\""
        ∷ name
        ∷ bytes "\",\"level\":\""
        ∷ bytes (level_to_string level)
        ∷ bytes "\",\"msg\":\""
        ∷ msg
        ∷ bytes "\""
        ∷ [])
      (
        refl,
        (
          print_int-OneLine (pos tick),
          (refl, (hn, (refl, (level_to_string-OneLine level, (refl, (hm, (refl, tt))))))),
        ),
      )

-- What a line is: a text without line feed, and then one.
abbrev pub Line : List ℕ → Type 0
Line text = (body : List ℕ) × (text ≡ body ++ 10 ∷ []) × OneLine body

plain-Line : (head : List ℕ) → OneLine head → Line (head ++ bytes "}\n")
plain-Line head h = (
  head ++ bytes "}",
  sym (append_assoc head (bytes "}") (10 ∷ [])),
  any_of-append is_newline head (bytes "}") h refl,
)

data-Line :
    (head data_json : List ℕ)
    → OneLine head
    → OneLine data_json
    → Line (head ++ (bytes ",\"data\":" ++ (data_json ++ bytes "}\n")))
data-Line head data_json h hd =
    let tail = bytes ",\"data\":" ++ (data_json ++ bytes "}") in
    let joined : bytes ",\"data\":" ++ (data_json ++ bytes "}\n") ≡ tail ++ 10 ∷ [] =
      ap (λ rest. bytes ",\"data\":" ++ rest)
        (sym (append_assoc data_json (bytes "}") (10 ∷ []))) in
    let quiet : OneLine tail =
      any_of-append is_newline (bytes ",\"data\":") (data_json ++ bytes "}") refl
        (any_of-append is_newline data_json (bytes "}") hd refl) in
    (
      head ++ tail,
      ap (λ rest. head ++ rest) joined ∙ sym (append_assoc head tail (10 ∷ [])),
      any_of-append is_newline head tail h quiet,
    )

-- A call of `logger_log` whose module, message and data have no line feed prints exactly one line: a
-- text without line feed, and a line feed at its end.
pub logger_log-Line :
    (tick : ℕ) (name : List ℕ) (level : LogLevel) (msg data_json : List ℕ)
    → OneLine name
    → OneLine msg
    → OneLine data_json
    → Line (logger_log tick name level msg none)
      × Line (logger_log tick name level msg (some data_json))
unfolding logger_log
logger_log-Line tick name level msg data_json hn hm hd =
    let head = log_head-OneLine tick name level msg hn hm in
    (
      plain-Line _ head,
      elim (Bool-cases (ltb 0 (length data_json))) [
        | inl given ↦ rw given (data-Line _ data_json head hd)
        | inr empty ↦ rw empty (plain-Line _ head)
      ],
    )
