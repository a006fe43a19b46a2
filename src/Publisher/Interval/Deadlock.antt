-- ===== src/Publisher/Interval/Deadlock.antt =====
-- `SetTelemetryInterval` beside the telemetry loop, as interleaved steps. The dispatcher's goroutine
-- makes the calls, one after the other, and the loop's goroutine receives.
use pfsense_agent.Base.{◌≡◌, refl, false, Option, none, some, arith}
use pfsense_agent.Base.Int.{ℤ, pos, negsuc, lt_nat}
use pfsense_agent.Publisher.Interval.{min_telemetry_interval, clamp}

-- Where the call stands: outside, before the `select`, before the receive of the `default` branch,
-- and before its send. The interval is the clamped one.
pub data Caller : Type 0 where
  idle : Caller
  selecting draining refilling : ℤ → Caller

-- The channel, the caller, and the period of the loop's ticker.
pub record State : Type 0 where
  pub queued : Option ℤ
  pub caller : Caller
  pub period : ℤ

pub data Step : State → State → Type 0 where
  call : (s : State) (d : ℤ) → s.caller ≡ idle → Step s (record s { caller = selecting (clamp d) })
  send :
      (s : State) (d : ℤ)
      → s.caller ≡ selecting d
      → s.queued ≡ none
      → Step s (record s { queued = some d; caller = idle })
  full :
      (s : State) (d old : ℤ)
      → s.caller ≡ selecting d
      → s.queued ≡ some old
      → Step s (record s { caller = draining d })
  drain :
      (s : State) (d old : ℤ)
      → s.caller ≡ draining d
      → s.queued ≡ some old
      → Step s (record s { queued = none; caller = refilling d })
  refill :
      (s : State) (d : ℤ)
      → s.caller ≡ refilling d
      → s.queued ≡ none
      → Step s (record s { queued = some d; caller = idle })
  update : (s : State) (d : ℤ) → s.queued ≡ some d → Step s (record s { queued = none; period = d })
  tick : (s : State) → Step s s

pub data Reach (s : State) : State → Type 0 where
  here : Reach s s
  next : {t u : State} → Reach s t → Step t u → Reach s u

-- Every interval on its way to the ticker is at least the minimum.
abbrev pub AtLeastMin : ℤ → Type 0
AtLeastMin d = lt_nat d min_telemetry_interval ≡ false

abbrev pub QueuedAtLeastMin : Option ℤ → Type 0
QueuedAtLeastMin none = Unit
QueuedAtLeastMin (some d) = AtLeastMin d

abbrev pub CallerAtLeastMin : Caller → Type 0
CallerAtLeastMin idle = Unit
CallerAtLeastMin (selecting d) = AtLeastMin d
CallerAtLeastMin (draining d) = AtLeastMin d
CallerAtLeastMin (refilling d) = AtLeastMin d

pub record IsPaced (s : State) : Type 0 where
  pub queue : QueuedAtLeastMin s.queued
  pub calls : CallerAtLeastMin s.caller
  pub ticker : AtLeastMin s.period

clamp-AtLeastMin : (d : ℤ) → AtLeastMin (clamp d)
unfolding clamp
clamp-AtLeastMin (pos n) = ground arith
clamp-AtLeastMin (negsuc n) = refl

Step-IsPaced : {s t : State} → Step s t → IsPaced s → IsPaced t
Step-IsPaced (call s d e) h = record {
  queue = h.queue;
  calls = clamp-AtLeastMin d;
  ticker = h.ticker;
}
Step-IsPaced (send s d e f) h = record { queue = rw e at h.calls; calls = tt; ticker = h.ticker }
Step-IsPaced (full s d old e f) h = record {
  queue = h.queue;
  calls = rw e at h.calls;
  ticker = h.ticker;
}
Step-IsPaced (drain s d old e f) h = record {
  queue = tt;
  calls = rw e at h.calls;
  ticker = h.ticker;
}
Step-IsPaced (refill s d e f) h = record { queue = rw e at h.calls; calls = tt; ticker = h.ticker }
Step-IsPaced (update s d e) h = record { queue = tt; calls = h.calls; ticker = rw e at h.queue }
Step-IsPaced (tick s) h = h

-- However the calls and the loop interleave, no ticker period below the minimum is ever set, if the
-- loop starts with one that is not.
pub Reach-IsPaced : {s t : State} → Reach s t → IsPaced s → IsPaced t
Reach-IsPaced here h = h
Reach-IsPaced (next r st) h = Step-IsPaced st (Reach-IsPaced r h)

-- The caller waits in the `default` branch on a channel that is empty.
pub record IsBlocked (d : ℤ) (s : State) : Type 0 where
  pub waits : s.caller ≡ draining d
  pub empty : s.queued ≡ none

Step-IsBlocked : {s t : State} (d : ℤ) → Step s t → IsBlocked d s → IsBlocked d t
Step-IsBlocked d (call s c e) b = ground arith
Step-IsBlocked d (send s c e f) b = ground arith
Step-IsBlocked d (full s c old e f) b = ground arith
Step-IsBlocked d (drain s c old e f) b = ground arith
Step-IsBlocked d (refill s c e f) b = ground arith
Step-IsBlocked d (update s c e) b = ground arith
Step-IsBlocked d (tick s) b = b

-- Nothing that the two goroutines do ends the wait: the call never returns.
pub Reach-IsBlocked : {s t : State} (d : ℤ) → IsBlocked d s → Reach s t → IsBlocked d t
Reach-IsBlocked d b here = b
Reach-IsBlocked d b (next r st) = Step-IsBlocked d st (Reach-IsBlocked d b r)

abbrev pub quiet : ℤ → State
quiet period = record { queued = none; caller = idle; period = period }

-- The second call waits in the `default` branch, and the loop has taken the first interval.
abbrev pub stuck : ℤ → ℤ → State
stuck c d = record { queued = none; caller = draining (clamp d); period = clamp c }

-- The interleaving: a first interval is queued, a second call finds the channel full, and the loop
-- receives the first before the call does.
race : (period c d : ℤ) → Reach (quiet period) (stuck c d)
race period c d =
    next
      (next (next (next (next here (call _ c refl)) (send _ (clamp c) refl refl)) (call _ d refl))
        (full _ (clamp d) (clamp c) refl refl))
      (update _ (clamp c) refl)

-- From rest, whatever the period and the two intervals, the calls and the loop can reach a state from
-- which, whatever they do next, the second call still waits: it never returns.
pub wait_forever :
    (period c d : ℤ) (t : State)
    → Reach (stuck c d) t
    → Reach (quiet period) (stuck c d) × (t.caller ≡ draining (clamp d))
wait_forever period c d t r =
    (race period c d, (Reach-IsBlocked (clamp d) (record { waits = refl; empty = refl }) r).waits)
