-- ===== src/Logger.antt =====
-- src/logger.c and src/logger.h: one JSON line for each event. A call returns the bytes that it prints.
pub mod Line
mod Tests
use fleetos.Base.{
  ℕ, List, [], ◌∷◌, ◌++◌, ltb, if◌then◌else◌, length, ℤ, pos, Option, none, some, bytes, print_int,
  concat,
}
use Prim.Native.String.{String}

pub data LogLevel : Type 0 where
  debug info warn error critical : LogLevel

unfoldable pub level_to_string : LogLevel → String
level_to_string debug = "DEBUG"
level_to_string info = "INFO"
level_to_string warn = "WARN"
level_to_string error = "ERROR"
level_to_string critical = "CRITICAL"

-- What the two formats share.
unfoldable pub log_head : ℕ → (module_name : List ℕ) → LogLevel → (msg : List ℕ) → List ℕ
log_head tick module_name level msg = concat (
    bytes "{\"tick\":"
    ∷ print_int (pos tick)
    ∷ bytes ",\"module\":\""
    ∷ module_name
    ∷ bytes "\",\"level\":\""
    ∷ bytes (level_to_string level)
    ∷ bytes "\",\"msg\":\""
    ∷ msg
    ∷ bytes "\""
    ∷ [])

-- A null `data_json` is `none`. The format ends with a line feed.
unfoldable pub logger_log :
    ℕ → (module_name : List ℕ) → LogLevel → (msg : List ℕ) → (data_json : Option (List ℕ)) → List ℕ
logger_log tick module_name level msg none = log_head tick module_name level msg ++ bytes "}\n"
logger_log tick module_name level msg (some data_json) =
    if ltb 0 (length data_json)
    then log_head tick module_name level msg ++ (bytes ",\"data\":" ++ (data_json ++ bytes "}\n"))
    else log_head tick module_name level msg ++ bytes "}\n"

unfoldable pub logger_snapshot : ℕ → List ℕ → List ℕ
logger_snapshot tick procs_json =
    logger_log tick (bytes "SNAPSHOT") info (bytes "State snapshot") (some procs_json)
