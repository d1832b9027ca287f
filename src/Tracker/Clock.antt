-- ===== src/Tracker/Clock.antt =====
-- `MonoClock` of zimascoped/src/collector/tracker.rs: the kernel's monotonic nanoseconds as instants.
use zima_scope.Base.{ℕ, ◌+◌, ◌-◌, ◌*◌, ◌≤◌, ◌≡◌, arith, Option, some, none, leb, if◌then◌else◌, min}

-- The latest instant of the platform, counted from the earliest: 2^64 seconds.
abbrev pub instant_max : ℕ
instant_max = 18446744073709551616000000000

-- The longest `Duration`.
abbrev pub duration_max : ℕ
duration_max = 18446744073709551615999999999

abbrev pub secs : ℕ → ℕ
secs n = n * 1000000000

-- `Duration::saturating_mul`.
abbrev pub saturating_mul : ℕ → ℕ → ℕ
saturating_mul d n = min (d * n) duration_max

-- `anchor`: a kernel time and the instant that it stands for.
abbrev pub MonoClock : Type 0
MonoClock = Option (ℕ × ℕ)

unfoldable pub anchor_if_needed : MonoClock → ℕ → ℕ → MonoClock
anchor_if_needed none mono_ns at = some (mono_ns, at)
anchor_if_needed (some anchor) mono_ns at = some anchor

-- `wall` is the reading of `Instant::now()`, used only before the clock is anchored.
unfoldable pub to_instant : ℕ → MonoClock → ℕ → ℕ
to_instant wall none mono_ns = wall
to_instant wall (some (base_ns, base)) mono_ns =
    if leb base_ns mono_ns
    then (if leb (base + (mono_ns - base_ns)) instant_max then base + (mono_ns - base_ns) else base)
    else (if leb (base_ns - mono_ns) base then base - (base_ns - mono_ns) else base)

-- An anchored clock keeps order and distance: of two kernel times, neither so early nor so late
-- that the platform cannot represent it, the later one is the later instant by as much.
pub to_instant-distance :
    (wall base_ns base earlier later : ℕ)
    → earlier ≤ later
    → base_ns ≤ base + earlier
    → base + later ≤ instant_max + base_ns
    → to_instant wall (some (base_ns, base)) earlier + (later - earlier)
      ≡ to_instant wall (some (base_ns, base)) later
unfolding to_instant
to_instant-distance wall base_ns base earlier later o lo hi = ground arith
