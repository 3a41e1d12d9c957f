-- ===== src/Logcat/Direct.antt =====
-- src/logger/logcat_logger.rs, `log_error` and `log_info`: a message goes to Android's log as it is,
-- without the buffer.
use paperlog.Base.{◌==◌, if◌then◌else◌, Text, codes, count, List, [], ◌∷◌, ◌++◌, none}
use paperlog.Logcat.{Priority, error_priority, info_priority, Sent, utf8}

-- `CString::new`, which refuses a NUL, and `__android_log_write`. The log is oldest first.
unfoldable pub write : Priority → Text → List Sent → List Sent
write priority message_str android_log =
    if count 0 message_str == 0
    then android_log
      ++ record {
        priority = priority;
        tag = codes "Paper2";
        message = utf8 message_str;
        origin = none;
      }
        ∷ []
    else android_log

unfoldable pub log_error : Text → List Sent → List Sent
unfolding write
log_error message_str android_log = write error_priority message_str android_log

unfoldable pub log_info : Text → List Sent → List Sent
unfolding write
log_info message_str android_log = write info_priority message_str android_log
