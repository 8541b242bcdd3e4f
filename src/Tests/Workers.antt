-- ===== src/Tests/Workers.antt =====
-- A worker with one session and its grant, and what the theorem on a revocation says of it.
use session_broker.Base.{◌+◌, ◌≡◌, refl, true, count, some, get, insert, ◌∷◌, []}
use session_broker.Clock.{Timestamp, epoch, plus_secs}
use session_broker.Session.Types.{
  RevocationPolicy, ok, SessionEntry, SessionMap, SessionToken, TokenHash,
  default_policy as session_policy,
}
use session_broker.Session.Map.{new, new_entry, create, persist}
use session_broker.Session.Consistent.{At, IsConsistent}
use session_broker.Session.Creating.{new-IsConsistent, create_lem}
use session_broker.Session.Logout.{LoggedOut}
use session_broker.Keepalive.Scheduler.{
  Jitter, CustodyState, Scheduler, permanent, take_due, insert_issued, remove_custody,
}
use session_broker.Keepalive.Duty.{IsApart}
use session_broker.Keepalive.Worker.{Worker, join}
use session_broker.Keepalive.Revocation.{join-LoggedOut}

program : Unit {0}
unfolding get insert plus_secs new new_entry create persist
program = tt

abbrev digest : SessionToken → TokenHash
digest t = t + 1_000

abbrev noon : Timestamp
noon = epoch + 1_700_000_000

abbrev sessions : SessionMap
sessions = (create digest 100 (new session_policy) 1 7 42 noon).0

abbrev session : SessionEntry
session = new_entry digest 100 session_policy 1 7 42 noon

sessions-IsConsistent : IsConsistent sessions
unfolding program
sessions-IsConsistent =
    create_lem digest 100 (new session_policy) 1 7 42 noon (new-IsConsistent session_policy) refl
      refl

sessions-At : At sessions 1 session
unfolding program
sessions-At = refl

session_index : get 1_100 sessions.index ≡ some 1
unfolding program
session_index = refl

abbrev busy : CustodyState
busy = record {
  status = ok;
  access_exp = noon + 3600;
  next_refresh = noon + 2160;
  fail_count = 0;
  refreshing = true;
}

abbrev worker : Worker
worker = record {
  scheduler = record {
    policy = record {
      base_backoff_secs = 1;
      max_backoff_secs = 300;
      max_concurrent = 8;
      on_upstream_revoked = RevocationPolicy.kill;
    };
    entries = (7, busy) ∷ [];
    due = [];
  };
  sessions = sessions;
  audit = some [];
  writer = some [];
}

abbrev still : Jitter
still = record { spread = λ lifetime. lifetime; full = λ secs. secs }

worker_at : get 7 worker.scheduler.entries ≡ some busy
unfolding program
worker_at = refl

session_custody : session.custody ≡ 7
unfolding program
session_custody = refl

abbrev revoked : Worker
revoked =
    (join worker
      (record { custody = 7; outcome = some permanent; now = noon + 2161; jitter = still })).0

abbrev later_on : Scheduler
later_on =
    remove_custody (insert_issued (take_due revoked.scheduler (noon + 5000)).0 8 noon 60 still) 8

join-LoggedOut_example :
    LoggedOut revoked.sessions 1 1_100 × (count 7 (take_due later_on (noon + 9000)).1 ≡ 0)
join-LoggedOut_example =
    join-LoggedOut worker 7 busy 1 session 1_100 (noon + 2161) (noon + 9000) still later_on
      worker_at refl sessions-IsConsistent sessions-At session_custody session_index
      (IsApart.removed revoked.scheduler _ 8
        (IsApart.issued revoked.scheduler _ 8 noon 60 still
          (IsApart.taken revoked.scheduler revoked.scheduler (noon + 5000)
            (IsApart.stay revoked.scheduler))
          refl)
        refl)
