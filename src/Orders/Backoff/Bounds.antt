-- ===== src/Orders/Backoff/Bounds.antt =====
-- The wait of apps/orders/outbox.py as a function of the attempts.
use native.Mathlib.Nat.{pow-suc, pow-le-pow_right, mul-le-mul_left}
use swarmscope.Base.{ℕ, zero, suc, ◌-◌, ◌*◌, ◌^◌, ◌≤◌, ◌<◌, min, ◌≡◌, ok, arith}
use swarmscope.Orders.Backoff.{backoff_delay, timedelta_max}

-- The docstring's wait: `base` at first, and twice the wait before, up to `maximum`.
unfoldable pub doubled : ℕ → ℕ → ℕ → ℕ
doubled base maximum zero = min base maximum
doubled base maximum (suc k) = min (2 * doubled base maximum k) maximum

abbrev raised : ℕ → ℕ → ℕ
raised base k = base * 2 ^ k

raised-suc : (base k : ℕ) → raised base (suc k) ≡ 2 * raised base k
raised-suc base k = rw (pow-suc 2 k) (omega arith)

raised_mono : (base : ℕ) {j k : ℕ} → j ≤ k → raised base j ≤ raised base k
raised_mono base h = mul-le-mul_left base (pow-le-pow_right (omega arith) h)

raised-ge : (base k : ℕ) → base ≤ raised base k
raised-ge base zero = omega arith
raised-ge base (suc k) = omega (arith, raised-suc base k, raised-ge base k)

doubled-eq-min : (base maximum k : ℕ) → doubled base maximum k ≡ min (raised base k) maximum
unfolding doubled
doubled-eq-min base maximum zero = omega arith
doubled-eq-min base maximum (suc k) =
    omega (arith, doubled-eq-min base maximum k, raised-suc base k)

-- A wait that was computed, in closed form.
waits :
    (n base maximum : ℕ) {d : ℕ}
    → backoff_delay n base maximum ≡ ok d
    → (1 ≤ n) × (d ≡ min (raised base (min (n - 1) 16)) maximum)
unfolding backoff_delay
waits n base maximum h = ground arith

-- If no product can overflow, each of the first seventeen failures waits as the docstring says:
-- the base doubled once for every failure before it, up to the maximum.
pub backoff_delay-doubled :
    (k base maximum : ℕ)
    → k ≤ 16
    → base * 2 ^ 16 ≤ timedelta_max
    → backoff_delay (suc k) base maximum ≡ ok (doubled base maximum k)
unfolding backoff_delay
backoff_delay-doubled k base maximum small fine =
    rw (doubled-eq-min base maximum k) (ground (arith, raised_mono base {j = k} {k = 16} small))

-- Where it is computed, the wait never falls as attempts add up, and lies between the base (or the
-- maximum, if that is less) and the maximum.
pub backoff_delay_mono :
    (m n base maximum : ℕ) {d e : ℕ}
    → m ≤ n
    → backoff_delay m base maximum ≡ ok d
    → backoff_delay n base maximum ≡ ok e
    → (min base maximum ≤ d) × (d ≤ e) × (e ≤ maximum)
backoff_delay_mono m n base maximum le hd he = omega (
  arith,
  waits m base maximum hd,
  waits n base maximum he,
  raised-ge base (min (m - 1) 16),
  raised_mono base {j = min (m - 1) 16} {k = min (n - 1) 16} (omega arith),
)

-- From the seventeenth failure on, a base that sixteen doublings leave below the maximum waits for
-- just that long, and so never for the maximum.
pub backoff_delay_stalls :
    (n base maximum : ℕ) {d : ℕ}
    → 17 ≤ n
    → base * 2 ^ 16 < maximum
    → backoff_delay n base maximum ≡ ok d
    → (d ≡ base * 2 ^ 16) × (d < maximum)
unfolding backoff_delay
backoff_delay_stalls n base maximum late low h = ground arith

-- Once a failure is counted and no product can overflow, the wait is computed.
pub backoff_delay_total :
    (n base maximum : ℕ)
    → 1 ≤ n
    → base * 2 ^ 16 ≤ timedelta_max
    → (d : ℕ) × (backoff_delay n base maximum ≡ ok d)
unfolding backoff_delay
backoff_delay_total n base maximum h fine = (
  min (base * 2 ^ min (n - 1) 16) maximum,
  ground (arith, raised_mono base {j = min (n - 1) 16} {k = 16} (omega arith)),
)
