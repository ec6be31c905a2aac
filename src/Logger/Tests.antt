-- ===== src/Logger/Tests.antt =====
-- A run of `logger_log` of src/logger.c, and the theorem about it.
use fleetos.Base.{◌≡◌, refl, none, some, bytes, print_int, decimal_loop}
use fleetos.Logger.{info, level_to_string, log_head, logger_log}
use fleetos.Logger.Line.{Line, logger_log-Line}

first_line :
    logger_log 0
      (bytes "KERNEL")
      info
      (bytes "Simulation started")
      (some (bytes "{\"mode\":\"RR\"}"))
    ≡ bytes
        "{\"tick\":0,\"module\":\"KERNEL\",\"level\":\"INFO\",\"msg\":\"Simulation started\",\"data\":{\"mode\":\"RR\"}}\n"
unfolding logger_log log_head level_to_string print_int decimal_loop
first_line = refl

logger_log-Line_example :
    Line (logger_log 7 (bytes "MEM") info (bytes "Page fault resolved") none)
    × Line (logger_log 7 (bytes "MEM") info (bytes "Page fault resolved") (some (bytes "{}")))
logger_log-Line_example =
    logger_log-Line 7 (bytes "MEM") info (bytes "Page fault resolved") (bytes "{}") refl refl refl
