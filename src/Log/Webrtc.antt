-- ===== src/Log/Webrtc.antt =====
-- src/logger/webrtc_log.cpp: what WebRTC is told to log.
use mosaic_core.Base.{Bool, List, ◌∷◌}
use mosaic_core.Exec.{Exec, modify}

pub data WebrtcLogLevel : Type 0 where
  ls_verbose ls_info ls_warning ls_error ls_none : WebrtcLogLevel

-- The severities of WebRTC's own log.
pub record Severities (Severity : Type 0) : Type 0 where
  pub verbose : Severity
  pub info : Severity
  pub warning : Severity
  pub error : Severity
  pub none : Severity

-- The calls of `rtc::LogMessage`.
pub data LogMessage (Severity : Type 0) : Type 0 where
  log_to_debug : Severity → LogMessage Severity
  log_timestamps : Bool → LogMessage Severity
  log_threads : Bool → LogMessage Severity

module _ {Severity : Type 0} (severities : Severities Severity) where
  abbrev pub severity_of : WebrtcLogLevel → Severity
  severity_of ls_verbose = severities.verbose
  severity_of ls_info = severities.info
  severity_of ls_warning = severities.warning
  severity_of ls_error = severities.error
  severity_of ls_none = severities.none

  unfoldable pub set_webrtc_log_level : WebrtcLogLevel → Exec (List (LogMessage Severity)) Unit
  set_webrtc_log_level level = modify (λ calls. log_to_debug (severity_of level) ∷ calls)

module _ {Severity : Type 0} where
  unfoldable pub set_webrtc_log_timestamps : Bool → Exec (List (LogMessage Severity)) Unit
  set_webrtc_log_timestamps enable = modify (λ calls. log_timestamps enable ∷ calls)

  unfoldable pub set_webrtc_log_threads : Bool → Exec (List (LogMessage Severity)) Unit
  set_webrtc_log_threads enable = modify (λ calls. log_threads enable ∷ calls)
