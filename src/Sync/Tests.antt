-- ===== src/Sync/Tests.antt =====
-- A schedule on which the theorems on compat/sync_update.c are applied.
use openrsp.Base.{◌≡◌, ◌↔◌, true, refl, some, arith}
use openrsp.Sync.{
  rf, fs, SyncUpdate, names, init, schedule_bit, with_bit, known, schedule, due, consume,
}
use openrsp.Sync.Schedule.{entry, Due, entry-schedule, entry-consume, due-entry}

-- Gain once at sample 100, then RF each 50 samples from 20 before the counter wraps.
abbrev planned : SyncUpdate
planned = record {
  pending = 3;
  due_at = record { at_gain = 100; at_rf = 4294967276; at_fs = 0 };
  period = record { at_gain = 0; at_rf = 50; at_fs = 0 };
}

planned_by_schedule : schedule (schedule init 1 100 0) 2 4294967276 50 ≡ planned
unfolding schedule init schedule_bit names with_bit known
planned_by_schedule = refl

entry-schedule_example :
    entry (schedule planned 5 7 9) fs ≡ some (record { boundary = 7; every = 9 })
unfolding names
entry-schedule_example = entry-schedule planned 5 7 9 fs

entry-consume_example :
    entry (consume planned 7 10) rf ≡ some (record { boundary = 30; every = 50 })
unfolding names
entry-consume_example = entry-consume planned 7 10 rf

due-entry_example : (names (due planned 10) rf ≡ true) ↔ Due planned 10 rf
due-entry_example = due-entry planned 10 rf (omega arith) (omega arith)
