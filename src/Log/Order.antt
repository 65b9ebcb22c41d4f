-- ===== src/Log/Order.antt =====
-- Which messages are logged (include/mosaic/logger/i_logger.hpp).
use mosaic_core.Base.{
  String, ◌≡◌, refl, Bool, List, [], ◌∷◌, leb, if◌then◌else◌, none, some, Bool-cases, inl, inr,
}
use mosaic_core.Exec.{Exec, ok, fault, pure, ◌>>=◌}
use mosaic_core.Log.{
  LogLevel, debug, warning, info, value, Logger, LogService, get_instance, register_logger,
  set_logger, set_log_level, is_enabled, log,
}

-- Messages that are logged one after another.
abbrev pub log_all : List (String × LogLevel) → Exec LogService Unit
log_all [] = pure tt
log_all ((m, l) ∷ ms) = log l m >>= λ u. log_all ms

-- The messages whose level is at least `level`, the newest first, before `kept`.
abbrev pub passing : LogLevel → List (String × LogLevel) → Logger → Logger
passing level [] kept = kept
passing level ((m, l) ∷ ms) kept =
    passing level ms (if leb (value level) (value l) then (m, l) ∷ kept else kept)

abbrev pub at_level : LogLevel → Logger → LogService
at_level level kept = record { log_level = level; logger = some kept }

log_lem :
    (m : String) (l level : LogLevel) (kept : Logger)
    → log l m (at_level level kept)
      ≡ (ok tt, at_level level (if leb (value level) (value l) then (m, l) ∷ kept else kept))
unfolding log ◌>>=◌ is_enabled
log_lem m l level kept = elim (Bool-cases (leb (value level) (value l))) [
  | inl e ↦ rw e refl
  | inr e ↦ rw e refl
]

-- With a logger no call fails, and after any messages the logger holds those whose level is at
-- least the service's, in their order.
pub log_all-passing :
    (ms : List (String × LogLevel)) (level : LogLevel) (kept : Logger)
    → log_all ms (at_level level kept) ≡ (ok tt, at_level level (passing level ms kept))
unfolding ◌>>=◌
log_all-passing [] level kept = refl
log_all-passing ((m, l) ∷ ms) level kept =
    rw (log_lem m l level kept)
      (log_all-passing ms level (if leb (value level) (value l) then (m, l) ∷ kept else kept))

-- The enumeration puts WARNING below INFO: at INFO, the default, a warning is dropped and an
-- information is kept, whatever was logged before.
warning_dropped_at_info :
    (m : String) (kept : Logger)
    → (log warning m (set_log_level info (at_level debug kept)) ≡ (ok tt, at_level info kept))
      × (log info m (set_log_level info (at_level debug kept))
          ≡ (ok tt, at_level info ((m, info) ∷ kept)))
      × (is_enabled warning get_instance ≡ Bool.false)
unfolding log is_enabled set_log_level ◌>>=◌ get_instance
warning_dropped_at_info m kept = (refl, refl, refl)

-- After None is set as the logger, a message of any level is logged through a null pointer, and
-- registering a logger ends that.
none_logger :
    (m : String) (l level : LogLevel) (s : LogService)
    → ((log l m (set_logger none s)).0 ≡ fault)
      × ((log l m (register_logger (set_logger none s))).0 ≡ ok tt)
unfolding log set_logger register_logger ◌>>=◌ is_enabled
none_logger m l level s = elim (Bool-cases (leb (value s.log_level) (value l))) [
  | inl e ↦ rw e (refl, refl)
  | inr e ↦ rw e (refl, refl)
]
