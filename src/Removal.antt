-- ===== src/Removal.antt =====
-- daemon/removal_tracker.c: tells a receiver that was unplugged from one that comes back in time.
-- The times are uint64_t milliseconds, which are only compared and subtracted in order.
use openrsp.Base.{
  ℕ, ◌+◌, ◌-◌, ◌≤◌, ◌≡◌, refl, Bool, true, false, not, ◌&&◌, ◌||◌, ltb, leb, ◌==◌, if◌then◌else◌,
  List, [], ◌∷◌, arith,
}

pub record RemovalTracker : Type 0 where
  pub absent_since_ms : ℕ
  pub absence_active : Bool
  pub removal_notified : Bool

unfoldable pub present : RemovalTracker → RemovalTracker
present t = record { absent_since_ms = 0; absence_active = false; removal_notified = false }

-- Whether the removal is to be reported now, and the new tracker.
unfoldable pub absent : RemovalTracker → ℕ → ℕ → Bool × RemovalTracker
absent t now_ms grace_ms =
    if not t.absence_active
    then (let started = record t { absent_since_ms = now_ms; absence_active = true } in
        if grace_ms == 0 && not t.removal_notified
        then (true, record started { removal_notified = true })
        else (false, started))
    else if ltb now_ms t.absent_since_ms
    then (false, record t { absent_since_ms = now_ms })
    else if not t.removal_notified && leb grace_ms (now_ms - t.absent_since_ms)
    then (true, record t { removal_notified = true })
    else (false, t)

-- The answers while the receiver stays away, polled at the given times.
pub polls : RemovalTracker → ℕ → List ℕ → List Bool
polls t grace [] = []
polls t grace (now ∷ times) = let (report, t') = absent t now grace in report ∷ polls t' grace times

abbrev pub reports : List Bool → ℕ
reports [] = 0
reports (true ∷ bs) = reports bs + 1
reports (false ∷ bs) = reports bs

abbrev left_to_report : RemovalTracker → ℕ
left_to_report t = if t.removal_notified then 0 else 1

polls_bounded :
    (t : RemovalTracker) (grace : ℕ) (times : List ℕ)
    → reports (polls t grace times) ≤ left_to_report t
unfolding polls absent
polls_bounded t grace [] = ground arith
polls_bounded t grace (now ∷ times) =
    ground (arith, polls_bounded (absent t now grace).1 grace times)

-- Whatever the clock does, one absence is reported at most once.
pub polls_once :
    (t : RemovalTracker) (grace : ℕ) (times : List ℕ) → reports (polls (present t) grace times) ≤ 1
unfolding present
polls_once t grace times = ground (arith, polls_bounded (present t) grace times)

-- The first poll is the start of the absence, and the report comes at the first poll that is not
-- before the end of the grace period.
abbrev pub expected : ℕ → ℕ → Bool → List ℕ → List Bool
expected start grace told [] = []
expected start grace told (now ∷ times) =
    (not told && leb (start + grace) now)
    ∷ expected start grace (told || leb (start + grace) now) times

-- The times do not go back.
abbrev pub Ascending : ℕ → List ℕ → Type 0
Ascending low [] = Unit {0}
Ascending low (now ∷ times) = (low ≤ now) × Ascending now times

abbrev waiting : ℕ → Bool → RemovalTracker
waiting start told = record {
  absent_since_ms = start;
  absence_active = true;
  removal_notified = told;
}

polls-waiting :
    (start grace low : ℕ) (told : Bool) (times : List ℕ)
    → start ≤ low
    → Ascending low times
    → polls (waiting start told) grace times ≡ expected start grace told times
unfolding polls absent
polls-waiting start grace low told [] h a = refl
polls-waiting start grace low told (now ∷ times) h a = ground (
  arith,
  polls-waiting start grace now true times (omega arith) a.1,
  polls-waiting start grace now told times (omega arith) a.1,
)

-- With a clock that does not go back, an absence that begins at `start` is reported at exactly the
-- first poll that is `grace` or more after `start`.
pub polls_lem :
    (t : RemovalTracker) (start grace : ℕ) (times : List ℕ)
    → Ascending start times
    → polls (present t) grace (start ∷ times) ≡ expected start grace false (start ∷ times)
unfolding polls present absent
polls_lem t start grace times a = ground (
  arith,
  polls-waiting start grace start true times (omega arith) a,
  polls-waiting start grace start false times (omega arith) a,
)
