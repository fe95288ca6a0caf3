-- ===== src/Timer/Rto.antt =====
-- src/timer/rtx_timer.rs: the retransmission timeout, in milliseconds. `Floats` are the three
-- calculations on `f64` that the manager makes of whole numbers: half of a measurement, a new
-- variation of the old one and a difference, and four times a variation, cut to a whole number.
use sctp.Base.{
  ℕ, ◌+◌, ◌-◌, ◌*◌, ◌/◌, ◌%◌, ◌^◌, ◌≤◌, Bool, false, if◌then◌else◌, ◌==◌, ltb, min, max, arith,
}

abbrev pub rto_initial : ℕ
rto_initial = 3000

abbrev pub rto_min : ℕ
rto_min = 1000

abbrev pub rto_max : ℕ
rto_max = 60000

abbrev pub max_init_retrans : ℕ
max_init_retrans = 8

abbrev pub no_max_retrans : ℕ
no_max_retrans = 0

pub record Floats : Type 1 where
  pub F64 : Type 0
  pub zero_float : F64
  pub half : ℕ → F64
  pub blend : F64 → (difference : ℕ) → F64
  pub four_times : F64 → ℕ

pub record RtoManager (floats : Floats) : Type 0 where
  pub srtt : ℕ
  pub rttvar : floats.F64
  pub rto : ℕ
  pub no_update : Bool

-- `(a as i64 - b as i64).abs()`.
unfoldable pub distance : ℕ → ℕ → ℕ
distance a b = if ltb a b then b - a else a - b

module _ (floats : Floats) where
  unfoldable pub new : RtoManager floats
  new = record { srtt = 0; rttvar = floats.zero_float; rto = rto_initial; no_update = false }

  unfoldable pub measure : RtoManager floats → ℕ → RtoManager floats
  unfolding distance
  measure m rtt =
      if m.srtt == 0 then record m { srtt = rtt; rttvar = floats.half rtt } else record m {
        srtt = (7 * m.srtt + rtt) / 8;
        rttvar = floats.blend m.rttvar (distance m.srtt rtt);
      }

  unfoldable pub set_new_rtt : RtoManager floats → ℕ → ℕ × RtoManager floats
  unfolding measure
  set_new_rtt m rtt =
      let m' = measure m rtt in
      if m.no_update then (m.srtt, m) else (
        m'.srtt,
        record m' { rto = min (max (m'.srtt + floats.four_times m'.rttvar) rto_min) rto_max },
      )

  unfoldable pub reset : RtoManager floats → RtoManager floats
  reset m =
      if m.no_update
      then m
      else record m { srtt = 0; rttvar = floats.zero_float; rto = rto_initial }

-- `rto << n_rtos` drops what leaves the 64 bits.
unfoldable pub calculate_next_timeout : (rto n_rtos : ℕ) → ℕ
calculate_next_timeout rto n_rtos =
    if ltb n_rtos 31 then min (rto * 2 ^ n_rtos % 2 ^ 64) rto_max else rto_max

-- A timeout stands between the bounds of RFC 4960.
abbrev pub IsBounded : (floats : Floats) → RtoManager floats → Type 0
IsBounded floats m = (rto_min ≤ m.rto) × (m.rto ≤ rto_max)

-- The timeout of a manager stays within its bounds, whatever the measurements and the rounding.
pub set_new_rtt-IsBounded :
    (floats : Floats) (m : RtoManager floats) (rtt : ℕ)
    → IsBounded floats m
    → (IsBounded floats (set_new_rtt floats m rtt).1) × (IsBounded floats (reset floats m))
unfolding set_new_rtt reset
set_new_rtt-IsBounded floats m rtt h = ground arith
