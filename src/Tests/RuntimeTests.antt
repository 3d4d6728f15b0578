-- ===== src/Tests/RuntimeTests.antt =====
-- A forged log line, and a budget that asks for more memory than the host allows.
use stanchion.Prelude.{◌+◌, ◌*◌, ◌≤◌, ◌≡◌, refl, true, none, some, all, length, codes}
use stanchion.Manifest.{Budget}
use stanchion.Sanitize.{max_log_message, sanitize_log}
use stanchion.Sanitize.Printable.{is_printable, sanitize_log-is_printable}
use stanchion.Limits.{ResourceLimits, narrowed_by}

forged : sanitize_log (codes "ok\n[host] granted") ≡ codes "ok\\n[host] granted"
unfolding sanitize_log
forged = refl

sanitize_log-is_printable_example :
    (all is_printable (sanitize_log (codes "ok\n[host] granted")) ≡ true)
    × (length (sanitize_log (codes "ok\n[host] granted")) ≤ 6 * max_log_message + 12)
sanitize_log-is_printable_example = sanitize_log-is_printable (codes "ok\n[host] granted")

abbrev host : ResourceLimits
host = record { memory_bytes = some 1000; max_instructions = none }

abbrev budget : Budget
budget = record { max_instructions = 50; memory_bytes = some 4000 }

narrowed : (narrowed_by host (some budget)).memory_bytes ≡ some 1000
unfolding narrowed_by
narrowed = refl
