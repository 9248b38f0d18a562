-- ===== src/Convert/Timestamp.antt =====
-- `from_us` of include/timestamp_utils.h.
use time_agent.Base.{ℕ, ◌+◌, ◌*◌, ◌/◌, ◌%◌, ◌<◌, ◌≡◌, arith}
use time_agent.Base.Int.{pos, two_63, to_int_64}
use time_agent.Convert.{from_us, stamp}

-- For a time that an `int64_t` holds, seconds and nanoseconds of the message are natural numbers,
-- make up the time again, and the nanoseconds are whole microseconds below one second.
pub stamp_lem :
    (us : ℕ)
    → us < two_63
    → (s : ℕ) × (n : ℕ) × ((stamp us).seconds ≡ pos s)
      × ((stamp us).nanos ≡ pos (n * 1000))
      × (s * 1000000 + n ≡ us)
      × (n * 1000 < 1000000000)
unfolding from_us to_int_64
stamp_lem us h = (us / 1000000, us % 1000000, ground arith, ground arith, omega arith, omega arith)
