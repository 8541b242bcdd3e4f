-- ===== src/Tests/Mirrors.antt =====
-- A login on an empty map whose custody is on disk: its commands, the mirror, a restart, a logout.
use session_broker.Session.Types
use session_broker.Session.Types.{alive}
use session_broker.Base.{◌∷◌}
use session_broker.Session.Map.{apply, apply_added, apply_superseded, apply_purged}
use session_broker.Session.Entry.{slide}
use session_broker.Base.{
  false, List, arith, ℕ, ◌+◌, ◌≡◌, refl, [], none, some, get, insert, remove, update, none-some,
}
use session_broker.Clock.{Timestamp, epoch, plus_secs, since}
use session_broker.Session.Types.{
  SessionMap, SessionEntry, default_policy, CustodyStatus, KillReason,
}
use session_broker.Session.Entry.{
  classify, session_expiry, resource_valid_until, mint, reap_generations, reap_expired, cap_live,
  trim, retire, supersede_last, find_gen, meta, current,
}
use session_broker.Session.Map.{
  create, new_entry, first_gen, persist, announce, with_durability, resolve,
}
use session_broker.Session.Consistent.{IsConsistent}
use session_broker.Session.Creating.{create_lem}
use session_broker.Session.Kill.{tombstone_session_with_reason}
use session_broker.Custody.Grant.{CustodyRow}
use session_broker.Store.Rows.{Db, empty}
use session_broker.Store.Statements.{insert_session, insert_generation, insert_custody}
use session_broker.Store.Writer.{apply_session}
use session_broker.Store.Reaper.{IsIntegral}
use session_broker.Store.Integrity.{empty-IsIntegral, insert_custody-IsIntegral}
use session_broker.Store.Restart.{rehydrate, rehydrate_sessions}
use session_broker.Store.Mirror.{
  Mirrors, apply_all, apply_all-IsIntegral, rehydrate_sessions-Covers,
}
use session_broker.Store.Mirrored.{IsCarried}
use session_broker.Store.Killed.{tombstone_session_with_reason-IsCarried}
use session_broker.Store.Mirrored.{changed-Mirrors}
use session_broker.Store.Carried.{refresh-IsCarried}
use session_broker.Session.Types.{SessionRow, IssuedCookies}
use session_broker.Session.Refresh.{
  RefreshResult, issued, refresh, refresh_entry, refresh_live, finish_refresh, rotate, coalesced,
}
use session_broker.Store.Started.{create-IsCarried, create-IsChange, create-IsClean, with_rows}

program : Unit {0}
unfolding get insert remove update plus_secs find_gen meta current create new_entry persist announce
    with_durability tombstone_session_with_reason empty insert_session insert_generation
    insert_custody apply_session apply_all refresh refresh_entry refresh_live finish_refresh rotate
    coalesced slide classify session_expiry resource_valid_until mint reap_generations reap_expired
    cap_live trim retire supersede_last apply apply_added apply_superseded apply_purged since
program = tt

abbrev noon : Timestamp
noon = epoch + 1_700_000_000

abbrev custody_row : CustodyRow
custody_row = record {
  custody_id = 7;
  sub = 3;
  refresh_tok = 100;
  access_tok = 101;
  access_exp = noon + 3600;
  scope = none;
  status = CustodyStatus.ok;
  next_refresh = noon + 2160;
  fail_count = 0;
  updated_at = noon;
  provider_id = 0;
}

abbrev disk : Db
disk = record empty { custodies = insert 7 custody_row [] }

abbrev before : SessionMap
before = with_durability default_policy

before-Mirrors : Mirrors disk before
unfolding program
before-Mirrors = record {
  covers = record {
    session_kept = λ k e at. elim (none-some at) [ ];
    generation_kept = λ k e h g at found. elim (none-some at) [ ];
    claimed_kept = λ k e h at claimed. elim (none-some at) [ ];
  };
  no_more = λ k e h row at held owner. elim (none-some at) [ ];
  death_kept = λ k e s at held. elim (none-some at) [ ];
  unmarked = λ k e at lives. elim (none-some at) [ ];
  owned = λ h row held. elim (none-some held) [ ];
}

abbrev hash : ℕ → ℕ
hash token = token + 1000

abbrev after : SessionMap
after = (create hash 42 before 5 7 3 noon).0

create-IsCarried_example : IsCarried disk [] after
unfolding program
create-IsCarried_example =
    create-IsCarried hash 42 disk before 5 7 3 noon [] before-Mirrors refl refl refl refl

disk-IsIntegral : IsIntegral disk
unfolding empty
disk-IsIntegral = insert_custody-IsIntegral empty empty-IsIntegral custody_row

carried : IsCarried disk [] after
unfolding program
carried = create-IsCarried hash 42 disk before 5 7 3 noon [] before-Mirrors refl refl refl refl

carried-IsIntegral : IsIntegral carried.1
carried-IsIntegral = apply_all-IsIntegral carried.0 disk carried.1 disk-IsIntegral carried.3

before-IsConsistent : IsConsistent before
unfolding with_durability get
before-IsConsistent = record {
  owner = λ h sid q. elim (none-some q) [ ];
  owned = λ sid e h at some_claim. elim (none-some at) [ ];
  distinct = λ sid e h at. elim (none-some at) [ ];
  named = λ sid e at. elim (none-some at) [ ];
  sound = λ sid e at. elim (none-some at) [ ];
}

after-IsConsistent : IsConsistent after
unfolding program
after-IsConsistent = create_lem hash 42 before 5 7 3 noon before-IsConsistent refl refl

abbrev entry : SessionEntry
entry = new_entry hash 42 default_policy 5 7 3 noon

rehydrate_sessions-Covers_example :
    resolve
      (rehydrate_sessions (some (rehydrate carried.1)) (with_durability default_policy)).0
      1042
      (noon + 60)
    ≡ resolve after 1042 (noon + 60)
unfolding program
rehydrate_sessions-Covers_example =
    rehydrate_sessions-Covers carried.1 after 5 entry 1042 (first_gen hash 42 default_policy noon)
      (noon + 60) carried-IsIntegral carried.4.covers after-IsConsistent refl refl refl refl

tombstone_session_with_reason-IsCarried_example :
    IsCarried carried.1 carried.0
      (tombstone_session_with_reason after 5 noon KillReason.logged_out).0
unfolding program
tombstone_session_with_reason-IsCarried_example =
    tombstone_session_with_reason-IsCarried carried.1 after 5 noon KillReason.logged_out carried.0
      carried.4 carried.2

abbrev map_of : RefreshResult → SessionMap
map_of (issued m cookies) = m
map_of _ = after

abbrev no_cookies : IssuedCookies
no_cookies = record {
  token = 0;
  meta = record {
    v = 1;
    sub = 3;
    sid = 5;
    gen = 1;
    active_until = noon;
    refresh_until = noon;
    absolute_until = noon;
    custody = CustodyStatus.ok;
  };
  rotated = false;
}

abbrev cookies_of : RefreshResult → IssuedCookies
cookies_of (issued m cookies) = cookies
cookies_of _ = no_cookies

abbrev row_5 : SessionRow
row_5 = record {
  sid = 5;
  custody_id = 7;
  sub = 3;
  current_gen = 1;
  idle_exp = entry.idle_exp;
  absolute_exp = entry.absolute_exp;
  status = alive;
  created_at = noon;
}

abbrev login_cmds : List Types.Command
login_cmds =
    Types.Command.insert_session row_5
    ∷ Types.Command.insert_generation 5 1 1042 noon (plus_secs noon 600)
    ∷ []

abbrev after_disk : Db
after_disk = with_rows disk row_5 1042 noon (plus_secs noon 600)

after-Mirrors : Mirrors after_disk after
unfolding program
after-Mirrors =
    changed-Mirrors disk after_disk before after 5 entry before-Mirrors
      (create-IsChange hash 42 disk before 5 7 3 noon refl)
      (create-IsClean hash 42 disk before 5 7 3 noon before-Mirrors refl)

abbrev rotated : RefreshResult
rotated = refresh hash 43 after 1042 (noon + 700)

refresh-IsCarried_example : IsCarried after_disk login_cmds (map_of rotated)
unfolding program
refresh-IsCarried_example =
    refresh-IsCarried hash 43 (noon + 700) after_disk after (map_of rotated) 5 entry 1042
      (cookies_of rotated) login_cmds after-Mirrors after-IsConsistent refl (omega arith) refl refl
      refl refl refl
