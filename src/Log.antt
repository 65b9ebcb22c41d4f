-- ===== src/Log.antt =====
-- include/mosaic/logger and src/logger: the level below which nothing is logged.
pub mod Order
pub mod Webrtc
use mosaic_core.Base.{String, Bool, List, [], ◌∷◌, ℕ, leb, Option, none, some}
use mosaic_core.Exec.{Exec, modify, gets, when, deref, ◌>>=◌, ◌>>◌}

pub data LogLevel : Type 0 where
  debug warning info error : LogLevel

-- The values of the enumeration in log_level.hpp.
abbrev pub value : LogLevel → ℕ
value debug = 0
value warning = 1
value info = 2
value error = 3

-- What a logger was told to log, the newest first: it stands for the `ILogger`.
abbrev pub Logger : Type 0
Logger = List (String × LogLevel)

-- `LogService`, whose pointer may be null.
pub record LogService : Type 0 where
  pub log_level : LogLevel
  pub logger : Option Logger

-- The members behind the start of the program: `DefaultLogger` makes a console logger.
unfoldable pub get_instance : LogService
get_instance = record { log_level = info; logger = some [] }

unfoldable pub set_log_level : LogLevel → LogService → LogService
set_log_level level s = record s { log_level = level }

-- `RegisterLogger` makes a logger of the class that it is given.
unfoldable pub register_logger : LogService → LogService
register_logger s = record s { logger = some [] }

-- `set_logger` of python/bindings/bind_logging.cpp: None is a null pointer.
unfoldable pub set_logger : Option Logger → LogService → LogService
set_logger l s = record s { logger = l }

unfoldable get_log_level : LogService → LogLevel
get_log_level s = s.log_level

-- `IsDebugEnabled` and its three siblings.
unfoldable pub is_enabled : LogLevel → LogService → Bool
unfolding get_log_level
is_enabled level s = leb (value (get_log_level s)) (value level)

abbrev append_to : (String × LogLevel) → Option Logger → Option Logger
append_to entry none = none
append_to entry (some l) = some (entry ∷ l)

abbrev has_logger : Option Logger → Bool
has_logger none = Bool.false
has_logger (some l) = Bool.true

-- `GetLogger()->LOG_DEBUG` and its three siblings, behind the formatting.
unfoldable pub log : LogLevel → String → Exec LogService Unit
unfolding is_enabled ◌>>=◌
log level message = do
  has ← gets (λ s. has_logger s.logger)
  deref has (do
    enabled ← gets (is_enabled level)
    when enabled (modify (λ s. record s { logger = append_to (message, level) s.logger })))
