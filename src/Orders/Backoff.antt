-- ===== src/Orders/Backoff.antt =====
-- apps/orders/outbox.py, lines 12 to 34: the wait before a failed event is tried again. A
-- `timedelta` is a number of microseconds.
pub mod Bounds
use swarmscope.Base.{ℕ, ◌+◌, ◌-◌, ◌*◌, ◌^◌, min, Result, ok, err, ltb, if◌then◌else◌}

pub data BackoffError : Type 0 where
  value_error overflow_error : BackoffError

abbrev pub second : ℕ
second = 1000000

abbrev pub default_lease_duration : ℕ
default_lease_duration = 30 * second

abbrev pub default_base_backoff : ℕ
default_base_backoff = second

abbrev pub default_max_backoff : ℕ
default_max_backoff = 5 * 60 * second

abbrev pub max_backoff_exponent : ℕ
max_backoff_exponent = 16

abbrev pub max_error_length : ℕ
max_error_length = 1000

-- Python's `timedelta.max`; a product beyond it raises OverflowError.
abbrev pub timedelta_max : ℕ
timedelta_max = 1000000000 * 86400 * second - 1

unfoldable pub backoff_delay : ℕ → ℕ → ℕ → Result BackoffError ℕ
backoff_delay attempts base maximum =
    if ltb attempts 1
    then err value_error
    else (let exponent = min (attempts - 1) max_backoff_exponent in
        let delay = base * 2 ^ exponent in
        if ltb timedelta_max delay then err overflow_error else ok (min delay maximum))
