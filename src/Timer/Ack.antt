-- ===== src/Timer/Ack.antt =====
-- src/timer/ack_timer.rs: the timer of the delayed acknowledgement. `has_task` is whether a task
-- waits for the interval to pass; `close_tx` is whether the timer holds the task's channel.
use sctp.Base.{◌≡◌, refl, Bool, true, false, if◌then◌else◌, arith}

pub record AckTimer : Type 0 where
  pub close_tx : Bool
  pub has_task : Bool

unfoldable pub new : AckTimer
new = record { close_tx = false; has_task = false }

unfoldable pub start : AckTimer → Bool × AckTimer
start t = if t.close_tx then (false, t) else (true, record { close_tx = true; has_task = true })

-- The interval passes: the task calls the observer and ends. The timer keeps the channel.
unfoldable pub expire : AckTimer → AckTimer
expire t = record t { has_task = false }

-- The channel is dropped, which ends the task.
unfoldable pub stop : AckTimer → AckTimer
stop t = record { close_tx = false; has_task = false }

-- What happens to a timer that nobody stops.
pub data Unstopped : AckTimer → AckTimer → Type 0 where
  same : {t : AckTimer} → Unstopped t t
  started : {t t' : AckTimer} → Unstopped t t' → Unstopped t (start t').1
  expired : {t t' : AckTimer} → Unstopped t t' → Unstopped t (expire t')

-- The channel is held, and no task waits.
abbrev pub IsSpent : AckTimer → Type 0
IsSpent t = (t.close_tx ≡ true) × (t.has_task ≡ false)

start-IsSpent : (t : AckTimer) → IsSpent t → IsSpent (start t).1
unfolding start
start-IsSpent t h = ground arith

Unstopped-IsSpent : {t t' : AckTimer} → Unstopped t t' → IsSpent t → IsSpent t'
unfolding expire
Unstopped-IsSpent same h = h
Unstopped-IsSpent (started {t} {t'} r) h = start-IsSpent t' (Unstopped-IsSpent r h)
Unstopped-IsSpent (expired r) h = ((Unstopped-IsSpent r h).0, refl)

spent-start : (t : AckTimer) → IsSpent t → (start t).0 ≡ false
unfolding start
spent-start t h = ground arith

-- Once its interval has passed, a timer that was running does not run again until it is stopped:
-- however often it is started, no task waits, and each start reports that it did nothing.
pub expire-IsSpent :
    (t t' : AckTimer)
    → t.close_tx ≡ true
    → Unstopped (expire t) t'
    → (t'.has_task ≡ false) × ((start t').0 ≡ false)
unfolding expire
expire-IsSpent t t' h r = let s = Unstopped-IsSpent r (h, refl) in (s.1, spent-start t' s)
