-- ===== src/Lock/Value.antt =====
-- internal/lock/distributed_lock.go: `generateLockValue`, and the locks of instances that have drawn
-- their values with it.
pub mod Drawn
use go_message_dispatcher.Base.{Text, base64, Result, ok, err}

-- `drawn` is what `rand.Read` gives for 16 bytes; `now` is the time in the layout RFC3339Nano.
unfoldable pub generate_lock_value : Result Text → Text → Text
generate_lock_value (ok b) now = base64 b
generate_lock_value (err _) now = now
