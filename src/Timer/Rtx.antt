-- ===== src/Timer/Rtx.antt =====
-- src/timer/rtx_timer.rs: a retransmission timer, and what it tells its observer each time that it
-- expires. The task is its count of expiries while the channel that ends it is held.
use sctp.Base.{
  ℕ, zero, suc, ◌+◌, ◌*◌, ◌^◌, ◌≤◌, ◌<◌, ◌≡◌, refl, Bool, true, false, List, [], ◌∷◌, ◌++◌,
  if◌then◌else◌, min, ◌==◌, leb, arith, ◌||◌,
}
use native.Mathlib.Nat.{mul-le-mul_left, mul-le-mul_right, pow-le-pow_right, pow-suc}
use sctp.Timer.Rto.{calculate_next_timeout, rto_max}

pub record RtxTimer : Type 0 where
  pub max_retrans : ℕ
  pub close_tx : Bool
  pub rto : ℕ
  pub n_rtos : ℕ

-- What the observer is told.
pub data Event : Type 0 where
  on_retransmission_timeout : (n : ℕ) → Event
  on_retransmission_failure : Event

unfoldable pub new : (max_retrans : ℕ) → RtxTimer
new max_retrans = record { max_retrans = max_retrans; close_tx = false; rto = 0; n_rtos = 0 }

unfoldable pub start : RtxTimer → (rto : ℕ) → Bool × RtxTimer
start t rto =
    if t.close_tx then (false, t) else (true, record t { close_tx = true; rto = rto; n_rtos = 0 })

unfoldable pub stop : RtxTimer → RtxTimer
stop t = record t { close_tx = false }

-- The wait before the next expiry.
unfoldable pub interval : RtxTimer → ℕ
unfolding calculate_next_timeout
interval t = calculate_next_timeout t.rto t.n_rtos

-- One expiry that finds the observer: without a bound, or up to it, a timeout; past it, the failure,
-- which ends the task.
unfoldable pub expire : RtxTimer → List Event × RtxTimer
expire t =
    let n = t.n_rtos + 1 in
    if t.close_tx
    then (if t.max_retrans == 0 || leb n t.max_retrans
        then (on_retransmission_timeout n ∷ [], record t { n_rtos = n })
        else (on_retransmission_failure ∷ [], record t { n_rtos = n; close_tx = false }))
    else ([], t)

-- One expiry after the observer was dropped: nobody is told, and the task ends.
unfoldable pub expire_orphaned : RtxTimer → RtxTimer
expire_orphaned t = if t.close_tx then record t { n_rtos = t.n_rtos + 1; close_tx = false } else t

-- Expiries one after the other, with the observer alive.
unfoldable pub expire_times : ℕ → RtxTimer → List Event × RtxTimer
unfolding expire
expire_times zero t = ([], t)
expire_times (suc k) t =
    let (events, t') = expire t in let (more, t'') = expire_times k t' in (events ++ more, t'')

-- The timeouts numbered from n.
unfoldable pub timeouts : (n k : ℕ) → List Event
timeouts n zero = []
timeouts n (suc k) = on_retransmission_timeout (n + 1) ∷ timeouts (n + 1) k

doubling : (rto n : ℕ) → rto * 2 ^ (n + 1) ≡ 2 * (rto * 2 ^ n)
doubling rto n =
    let one_more : n + 1 ≡ suc n = omega arith in rw (one_more, pow-suc 2 n) (grind arith)

-- Below thirty-two doublings nothing leaves the 64 bits.
small : (rto n : ℕ) → rto ≤ rto_max → n < 32 → rto * 2 ^ n < 2 ^ 64
small rto n h l =
    let a : rto * 2 ^ n ≤ 60000 * 2 ^ n = mul-le-mul_right (2 ^ n) h in
    let b : 60000 * 2 ^ n ≤ 60000 * 2 ^ 31 =
      mul-le-mul_left 60000 (pow-le-pow_right {n = 2} (omega arith) {j = 31} (omega (arith, l))) in
    omega (arith, a, b)

-- Thirty-one doublings of a millisecond are more than a minute.
large : (rto n : ℕ) → 0 < rto → 31 ≤ n → rto_max ≤ rto * 2 ^ n
large rto n h l =
    let a : 1 * 2 ^ n ≤ rto * 2 ^ n = mul-le-mul_right (2 ^ n) h in
    let b : 2 ^ 31 ≤ 2 ^ n = pow-le-pow_right {n = 2} (omega arith) {i = 31} l in
    omega (arith, a, b)

calculate_next_timeout_closed :
    (rto n : ℕ) → 0 < rto → rto ≤ rto_max → calculate_next_timeout rto n ≡ min (rto * 2 ^ n) rto_max
unfolding calculate_next_timeout
calculate_next_timeout_closed rto n z h = ground (arith, small rto n h, large rto n z)

-- The first wait is the timeout itself, and each wait is twice the one before it, up to a minute:
-- with a timeout of one millisecond to a minute, the wait after n expiries is the timeout times 2^n
-- or a minute, whichever is less.
pub calculate_next_timeout_doubles :
    (rto n : ℕ)
    → 0 < rto
    → rto ≤ rto_max
    → (calculate_next_timeout rto 0 ≡ rto)
      × (calculate_next_timeout rto (n + 1) ≡ min (2 * calculate_next_timeout rto n) rto_max)
      × (calculate_next_timeout rto n ≡ min (rto * 2 ^ n) rto_max)
calculate_next_timeout_doubles rto n z h =
    let first = calculate_next_timeout_closed rto 0 z h in
    let here = calculate_next_timeout_closed rto n z h in
    let next = calculate_next_timeout_closed rto (n + 1) z h in
    (omega (arith, first), ground (arith, here, next, doubling rto n), here)

abbrev running : (max_retrans rto n : ℕ) → RtxTimer
running max_retrans rto n = record {
  max_retrans = max_retrans;
  close_tx = true;
  rto = rto;
  n_rtos = n;
}

starting :
    (t : RtxTimer) (rto : ℕ) → t.close_tx ≡ false → (start t rto).1 ≡ running t.max_retrans rto 0
unfolding start
starting t rto c = ground arith

abbrev failed : (max_retrans rto : ℕ) → RtxTimer
failed max_retrans rto = record {
  max_retrans = max_retrans;
  close_tx = false;
  rto = rto;
  n_rtos = max_retrans + 1;
}

expire-within :
    (m rto n : ℕ)
    → n < m
    → expire (running m rto n) ≡ (on_retransmission_timeout (n + 1) ∷ [], running m rto (n + 1))
unfolding expire
expire-within m rto n h = ground arith

expire-past :
    (m rto : ℕ) → 0 < m → expire (running m rto m) ≡ (on_retransmission_failure ∷ [], failed m rto)
unfolding expire
expire-past m rto h = ground arith

stopped : (m rto k : ℕ) → expire_times k (failed m rto) ≡ ([], failed m rto)
unfolding expire_times expire
stopped m rto zero = refl
stopped m rto (suc k) = rw (stopped m rto k) refl

expire_times-failing :
    (m rto extra k n : ℕ)
    → n + k ≡ m
    → 0 < m
    → expire_times (k + (1 + extra)) (running m rto n)
      ≡ (timeouts n k ++ (on_retransmission_failure ∷ []), failed m rto)
unfolding expire_times timeouts
expire_times-failing m rto extra zero n e b =
    let at_end : n ≡ m = omega (arith, e) in
    let one_more : 0 + (1 + extra) ≡ suc extra = omega arith in
    rw (at_end, one_more, expire-past m rto b, stopped m rto extra) refl
expire_times-failing m rto extra (suc k) n e b =
    let one_more : suc k + (1 + extra) ≡ suc (k + (1 + extra)) = omega arith in
    let here = expire-within m rto n (omega (arith, e)) in
    let rest = expire_times-failing m rto extra k (n + 1) (omega (arith, e)) b in
    rw (one_more, here, rest) refl

-- A timer with a bound reports exactly that many timeouts, in order, and then one failure, after
-- which it is stopped and reports nothing, however long it is left alone.
pub expire_times-fails :
    (t : RtxTimer) (rto extra : ℕ)
    → t.close_tx ≡ false
    → 0 < t.max_retrans
    → ((expire_times (t.max_retrans + (1 + extra)) (start t rto).1).0
        ≡ timeouts 0 t.max_retrans ++ (on_retransmission_failure ∷ []))
      × ((expire_times (t.max_retrans + (1 + extra)) (start t rto).1).1.close_tx ≡ false)
expire_times-fails t rto extra c b =
    let e = expire_times-failing t.max_retrans rto extra t.max_retrans 0 (omega arith) b in
    rw (starting t rto c, e) (refl, refl)
