-- ===== src/Tests/Sessions.antt =====
-- A map with one session and then two, and what the theorems on session.rs say of it.
use session_broker.Base.{
  some-inj, ◌+◌, ◌≡◌, refl, ap, sym, ◌∷◌, [], Bool, true, false, none, some, arith, get, insert,
  All,
}
use session_broker.Clock.{Timestamp, epoch, plus_secs, since}
use session_broker.Session.Types
use session_broker.Session.Types.{
  Sid, SessionEntry, SessionMap, SessionPolicy, default_policy, Resolution, IssuedCookies,
  Generation, RefreshDenied, SessionToken, TokenHash,
}
use session_broker.Session.Entry.{
  resource_valid_until, find_gen, find_retired, session_expiry, classify, meta, slide, retire, trim,
  reap_expired, cap_live, reap_generations, supersede_last, mint, all_hashes, current,
}
use session_broker.Session.Map.{
  new, new_entry, create, persist, apply, apply_added, apply_superseded, apply_purged, entry_for,
  sid_for_hash, resolve,
}
use session_broker.Session.Refresh.{
  RefreshResult, issued, denied, panicked, coalesced, rotate, finish_refresh, refresh_live,
  refresh_entry, refresh,
}
use session_broker.Session.Kill.{tombstone_session, tombstone_by_custody}
use session_broker.Session.Consistent.{At, IsConsistent}
use session_broker.Session.Sound.{IsSound, mint-IsSound, current-newest}
use session_broker.Session.Creating.{new-IsConsistent, create_lem, create-resolve}
use session_broker.Session.Answers.{HaveRoom, Answers, refresh-resolve}
use session_broker.Session.Grace.{refresh-resolve_grace}
use session_broker.Session.Issued.{refresh-resolve_issued, IsHeld}
use session_broker.Session.Coalescing.{Burst, done, again, SameCookie, Burst-refresh}
use session_broker.Session.Logout.{
  LoggedOut, tombstone_session-resolve, tombstone_session_other, tombstone_by_custody-resolve,
}

program : Unit {0}
unfolding get insert plus_secs since resource_valid_until find_gen find_retired session_expiry
    classify meta slide retire trim reap_expired cap_live reap_generations supersede_last mint
    all_hashes current new new_entry create persist apply apply_added apply_superseded apply_purged
    entry_for sid_for_hash resolve coalesced rotate finish_refresh refresh_live refresh_entry
    refresh
program = tt

abbrev digest : SessionToken → TokenHash
digest t = t + 1_000

abbrev noon : Timestamp
noon = epoch + 1_700_000_000

abbrev empty : SessionMap
empty = new default_policy

-- Session 1 of subject 42, on grant 7, with token 100.
abbrev one : SessionMap
one = (create digest 100 empty 1 7 42 noon).0

abbrev first : SessionEntry
first = new_entry digest 100 default_policy 1 7 42 noon

one-IsConsistent : IsConsistent one
unfolding program
one-IsConsistent =
    create_lem digest 100 empty 1 7 42 noon (new-IsConsistent default_policy) refl refl

one-At : At one 1 first
unfolding program
one-At = refl

one_index : get 1_100 one.index ≡ some 1
unfolding program
one_index = refl

create-resolve_example :
    let m = (create digest 200 one 2 8 43 noon).0 in
    IsConsistent m
    × (resolve m 1_100 noon ≡ resolve one 1_100 noon)
    × (resolve m 1_200 noon ≡ Resolution.active 2 1 true)
unfolding program
create-resolve_example =
    create-resolve digest 200 one 2 8 43 noon 1_100 1 noon one-IsConsistent refl refl refl
      (omega arith, omega arith) (omega arith, omega arith) (omega arith, omega arith)
      (omega arith, omega arith)

abbrev answered_map : RefreshResult → SessionMap
answered_map (issued m c) = m
answered_map (denied d) = empty
answered_map panicked = empty

abbrev none_issued : IssuedCookies
none_issued = record {
  token = 0;
  rotated = false;
  meta = record {
    v = 0;
    sub = 0;
    sid = 0;
    gen = 0;
    active_until = 0;
    refresh_until = 0;
    absolute_until = 0;
    custody = Types.CustodyStatus.ok;
  };
}

abbrev answered_cookies : RefreshResult → IssuedCookies
answered_cookies (issued m c) = c
answered_cookies (denied d) = none_issued
answered_cookies panicked = none_issued

abbrev a_minute_later : Timestamp
a_minute_later = noon + 60

abbrev first_answer : RefreshResult
first_answer = refresh digest 101 one 1_100 a_minute_later

abbrev after_refresh : SessionMap
after_refresh = answered_map first_answer

refreshes :
    refresh digest 101 one 1_100 a_minute_later
    ≡ issued after_refresh (answered_cookies first_answer)
unfolding program
refreshes = refl

-- The old cookie half a minute after the refresh.
refresh-resolve_grace_example :
    (newest : Bool) × (resolve after_refresh 1_100 (a_minute_later + 30)
      ≡ Resolution.active 1 1 newest)
unfolding program
refresh-resolve_grace_example =
    refresh-resolve_grace digest 101 one a_minute_later 1 first 1_100 1_100 (a_minute_later + 30) 1
      true one-IsConsistent one-At (omega arith) (omega arith) refl one_index one_index refreshes
      refl (omega arith) (omega arith) (omega arith)

one_entry : (sid : Sid) (e : SessionEntry) → At one sid e → first ≡ e
unfolding program
one_entry sid e at = ground arith

one-HaveRoom : HaveRoom one
unfolding program
one-HaveRoom sid e at =
    let same : first.current_gen ≡ e.current_gen =
      ap (λ (x : SessionEntry). x.current_gen) (one_entry sid e at) in
    omega (arith, same)

unused : get 1_101 one.index ≡ none
unfolding program
unused = refl

refresh-resolve_example :
    Answers one (resolve one 1_100 a_minute_later) (refresh digest 101 one 1_100 a_minute_later)
refresh-resolve_example =
    refresh-resolve digest 101 one 1_100 a_minute_later one-IsConsistent one-HaveRoom unused

first-IsHeld : IsHeld digest default_policy first
unfolding program
first-IsHeld token g own cur = (
  rw (sym (some-inj 100 token own), sym (some-inj _ g cur)) refl,
  rw (sym (some-inj _ g cur)) refl,
)

born : (one-IsConsistent.sound 1 first one-At).newest.created_at ≡ noon
unfolding program
born =
    let s = one-IsConsistent.sound 1 first one-At in
    sym (
      ap (λ (g : Generation). g.created_at)
        (some-inj _ s.newest (current-newest default_policy first s)))

refresh-resolve_issued_example :
    resolve after_refresh (digest (answered_cookies first_answer).token) a_minute_later
    ≡ Resolution.active 1 (answered_cookies first_answer).meta.gen true
unfolding program
refresh-resolve_issued_example =
    refresh-resolve_issued digest 101 one a_minute_later 1 first 1_100 one-IsConsistent one-At
      (omega arith) first-IsHeld refl one_index refreshes refl (omega arith, omega arith)
      (omega (arith, born), omega (arith, born)) (omega (arith, born)) (omega arith, omega arith)
      (omega arith, omega arith) (omega arith)

abbrev second_answer : RefreshResult
second_answer = refresh digest 102 after_refresh 1_101 a_minute_later

refreshes_again :
    refresh digest 102 after_refresh 1_101 a_minute_later
    ≡ issued (answered_map second_answer) (answered_cookies second_answer)
unfolding program
refreshes_again = refl

two-Burst : Burst digest 1 a_minute_later after_refresh (answered_cookies second_answer ∷ [])
unfolding program
two-Burst = again 102 1_101 refl refl refreshes_again done

Burst-refresh_example :
    All
      (SameCookie (answered_cookies first_answer).token (answered_cookies first_answer).meta.gen)
      (answered_cookies second_answer ∷ [])
unfolding program
Burst-refresh_example =
    Burst-refresh digest 1 a_minute_later one first 101 1_100 one-IsConsistent one-At (omega arith)
      (omega arith) refl one_index refreshes two-Burst

tombstone_session-resolve_example : LoggedOut (tombstone_session one 1 noon).0 1 1_100
tombstone_session-resolve_example =
    tombstone_session-resolve one 1 first 1_100 noon one-IsConsistent one-At one_index

tombstone_session_other_example :
    resolve (tombstone_session one 5 noon).0 1_100 a_minute_later ≡ resolve one 1_100 a_minute_later
tombstone_session_other_example =
    tombstone_session_other one 5 1 1_100 noon a_minute_later (omega arith) one_index

tombstone_by_custody-resolve_example : LoggedOut (tombstone_by_custody one 7 noon).0 1 1_100
unfolding program
tombstone_by_custody-resolve_example =
    tombstone_by_custody-resolve one 7 1 first 1_100 noon one-IsConsistent one-At refl one_index

mint-IsSound_example :
    IsSound default_policy (mint digest 101 first a_minute_later default_policy).0
unfolding program
mint-IsSound_example =
    mint-IsSound digest 101 default_policy a_minute_later first
      (one-IsConsistent.sound 1 first one-At) (omega arith)
