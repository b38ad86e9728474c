-- ===== src/Runtime.antt =====
-- packages/runtime.py: the pause between two rounds of a loop, which a shutdown request ends. The
-- request is an `asyncio.Event`, which once set stays set: it is the time at which that happens,
-- if it does. `asyncio.wait_for` returns at that time or after the timeout, whichever is first.
use swarmscope.Base.{ℕ, ◌+◌, Bool, Option, none, some, leb, min, max, holds}

-- `shutdown.is_set()`
abbrev pub is_set : Option ℕ → ℕ → Bool
is_set shutdown now = holds (λ t. leb t now) shutdown

-- the time at which the wait that began at `now` ends
unfoldable pub sleep_unless_shutdown : Option ℕ → ℕ → ℕ → ℕ
sleep_unless_shutdown none now delay = now + delay
sleep_unless_shutdown (some t) now delay = max now (min t (now + delay))
