-- ===== src/Log.antt =====
-- src/mnet_log.c, and `mnet_set_log_handler` of src/mnet_app.c. A message is the text that vsnprintf makes of
-- its format; L stands for the handlers.
use mnet.Base.{
  ℕ, ◌≡◌, refl, [], ◌∷◌, ◌++◌, Option, none, some, arith, ◌==◌, if◌then◌else◌, Bytes, codes, take,
  length-take, take-of_le, ap,
}

-- g_log_handler, and app->log_handler of an application, if there is one.
pub record Handlers (L : Type 0) : Type 0 where
  pub process_wide : Option L
  pub own : Option (Option L)

-- Where a message goes: to a handler, with its level, or to stderr.
pub data Emitted (L : Type 0) : Type 0 where
  to_handler : L → ℕ → Bytes → Emitted L
  to_stderr : Bytes → Emitted L

-- MNET_LOG_ERROR, MNET_LOG_WARN and MNET_LOG_DEBUG; MNET_LOG_INFO is 2.
abbrev log_error : ℕ
log_error = 0

abbrev log_warn : ℕ
log_warn = 1

abbrev log_debug : ℕ
log_debug = 3

unfoldable pub tag : ℕ → Bytes
tag level =
    if level == log_error
    then codes "ERROR"
    else if level == log_warn
    then codes "WARN"
    else if level == log_debug
    then codes "DEBUG"
    else codes "INFO"

-- What fits into buf[1024] in front of the NUL.
unfoldable pub clipped : Bytes → Bytes
clipped text = take 1023 text

module _ {L : Type 0} where
  -- `mnet_log_msg`
  unfoldable pub log_msg : Option L → ℕ → Bytes → Emitted L
  log_msg (some h) level text = to_handler h level (clipped text)
  log_msg none level text =
      to_stderr (codes "[mnet] " ++ tag level ++ codes ": " ++ text ++ 10 ∷ [])

  -- `if (app != NULL && app->log_handler != NULL)`
  unfoldable pub own_or : Option (Option L) → ℕ → Bytes → Emitted L → Emitted L
  own_or (some (some h)) level text otherwise = to_handler h level (clipped text)
  own_or (some none) level text otherwise = otherwise
  own_or none level text otherwise = otherwise

  -- `mnet_app_log`
  unfoldable pub app_log : Handlers L → ℕ → Bytes → Emitted L
  app_log hs level text = own_or hs.own level text (log_msg hs.process_wide level (clipped text))

  unfoldable pub with_own : Option (Option L) → Option L → Option (Option L)
  with_own none handler = none
  with_own (some old) handler = some handler

  -- `mnet_set_log_handler`, on the application of `own` if there is one
  unfoldable pub set_log_handler : Handlers L → Option L → Handlers L
  set_log_handler hs handler = record { process_wide = handler; own = with_own hs.own handler }

clipped-clipped : (text : Bytes) → clipped (clipped text) ≡ clipped text
unfolding clipped
clipped-clipped text = take-of_le 1023 (take 1023 text) (omega (arith, length-take 1023 text))

-- Behind mnet_set_log_handler with a handler, every message, of this application and of one without a
-- handler of its own, goes to it, with its level and at most 1023 bytes of its text.
pub app_log-set_log_handler :
    {L : Type 0} (hs : Handlers L) (h : L) (level : ℕ) (text : Bytes)
    → app_log (set_log_handler hs (some h)) level text ≡ to_handler h level (clipped text)
unfolding app_log set_log_handler own_or with_own log_msg
app_log-set_log_handler {L} hs h level text = by_own hs.own
  where
    by_own :
        (own : Option (Option L))
        → own_or (with_own own (some h)) level text (log_msg (some h) level (clipped text))
          ≡ to_handler h level (clipped text)
    by_own none = ap (to_handler h level) (clipped-clipped text)
    by_own (some old) = refl
