-- ===== src/Tests/Grants.antt =====
-- A grant that is taken and then renewed with a rotated token.
use session_broker.Base.{◌+◌, ◌≡◌, refl, true, none, some, get, insert, []}
use session_broker.Clock.{Timestamp, epoch, plus_secs}
use session_broker.Keepalive.Scheduler.{success}
use session_broker.Custody.Grant.{
  NewGrant, CustodyRow, Outside, Custodian, ready, granted, send, take_custody, keep_grant,
  exchange, renew, refresh_row, refresh_custody,
}
use session_broker.Custody.Renewal.{Verdict, refresh_custody-Verdict}
use session_broker.Custody.Taken.{IsOf, Follows, take_custody-refresh_custody}

program : Unit {0}
unfolding get insert plus_secs send take_custody keep_grant exchange renew refresh_row
    refresh_custody
program = tt

abbrev noon : Timestamp
noon = epoch + 1_700_000_000

abbrev grant : NewGrant
grant = record {
  sub = 42;
  refresh_token = 1;
  access_token = 2;
  access_exp = noon + 3600;
  scope = none;
  provider_id = 9;
}

abbrev outside : Outside
outside = record {
  reads = true;
  writes = true;
  worker_runs = true;
  as_bytes = λ t. t;
  from_utf8 = λ b. some b;
  client_for_refresh = λ p. ready;
  refresh_grant = λ t. granted (record {
    access_token = 3;
    rotated_refresh_token = some 4;
    expires_at = noon + 7200;
    lifetime_secs = 3600;
  });
  lead = λ secs. secs;
}

abbrev nobody : Custodian
nobody = record { store = []; scheduled = [] }

abbrev taken : Custodian
taken = (take_custody outside nobody 7 grant noon).0

renews : (refresh_custody outside taken.store 7 (noon + 2160)).1 ≡ success 3600 true
unfolding program
renews = refl

take_custody-refresh_custody_example :
    (row : CustodyRow) × (get 7 taken.store ≡ some row)
    × IsOf outside 7 grant noon row
    × Follows outside taken.store 7 row 1
        (noon + 2160)
        (outside.refresh_grant 1)
        (refresh_custody outside taken.store 7 (noon + 2160))
unfolding program
take_custody-refresh_custody_example =
    take_custody-refresh_custody outside outside nobody 7 grant noon (noon + 2160) taken.store refl
      refl refl refl refl refl

refresh_custody-Verdict_example :
    Verdict outside taken.store 7
      (noon + 2160)
      (refresh_custody outside taken.store 7 (noon + 2160))
refresh_custody-Verdict_example = refresh_custody-Verdict outside taken.store 7 (noon + 2160)
