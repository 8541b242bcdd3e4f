-- ===== src/Custody/Taken.antt =====
-- custody.rs: a grant from the login that brings it to its renewal.
use mathlib.Core.Path.{subst}
use session_broker.Base.{
  ◌≡◌, refl, ap, sym, true, false, none, some, get, insert, inl, inr, Bool-cases, ◌&&◌, ◌∙◌,
  true-false,
}
use session_broker.Clock.{Timestamp}
use session_broker.Session.Types.{CustodyId, ok}
use session_broker.Keepalive.Scheduler.{RefreshOutcome, success, transient, permanent}
use session_broker.Custody.Grant.{
  Token, NewGrant, CustodyRow, Store, RefreshClient, ready, RefreshGrant, granted, failed_transient,
  failed_permanent, Outside, Custodian, new_row, is_free, send, take_custody, renewed_row,
  is_rotated, or_else, keep_grant, exchange, renew, refresh_row, refresh_custody,
}
use session_broker.Custody.Renewal.{get-insert_same, IsNext, Holds, KeepsOwner, or_else-IsNext}

-- What a renewal does with the provider's answer to the token `spent`.
abbrev pub Follows :
    Outside
    → Store
    → CustodyId
    → CustodyRow
    → Token
    → Timestamp
    → RefreshGrant
    → Store × RefreshOutcome
    → Type 0
Follows o store c row spent now (granted grant) r =
    (r.1 ≡ success grant.lifetime_secs (is_rotated grant.rotated_refresh_token))
    × (row' : CustodyRow) × (next : Token) × (r.0 ≡ insert c row' store)
    × IsNext spent grant.rotated_refresh_token next
    × Holds o next grant now row'
    × KeepsOwner row row'
Follows o store c row spent now failed_transient r = r ≡ (store, transient none)
Follows o store c row spent now failed_permanent r = r ≡ (store, permanent)

-- What a row says of the grant that a login brought.
abbrev pub IsOf : Outside → CustodyId → NewGrant → Timestamp → CustodyRow → Type 0
IsOf o c g now row =
    (row.custody_id ≡ c)
    × (row.sub ≡ g.sub)
    × (row.scope ≡ g.scope)
    × (row.provider_id ≡ g.provider_id)
    × (row.refresh_tok ≡ o.as_bytes g.refresh_token)
    × (row.access_tok ≡ o.as_bytes g.access_token)
    × (row.access_exp ≡ g.access_exp)
    × (row.status ≡ ok)
    × (row.fail_count ≡ 0)
    × (row.updated_at ≡ now)

exchange-Follows :
    (o : Outside) (store : Store) (c : CustodyId) (row : CustodyRow) (spent : Token)
    (now : Timestamp) (answer : RefreshGrant)
    → o.writes ≡ true
    → Follows o store c row spent now answer (exchange o store c row spent now answer)
unfolding exchange keep_grant
exchange-Follows o store c row spent now failed_transient written = refl
exchange-Follows o store c row spent now failed_permanent written = refl
exchange-Follows o store c row spent now (granted grant) written =
    let next = or_else grant.rotated_refresh_token spent in
    rw written (
      refl,
      renewed_row o row next grant now,
      next,
      refl,
      or_else-IsNext spent grant.rotated_refresh_token,
      (refl, refl, refl, refl, refl, refl, refl),
      (refl, refl, refl, refl),
    )

refresh_custody-exchange :
    (o : Outside) (store : Store) (c : CustodyId) (row : CustodyRow) (token : Token)
    (now : Timestamp)
    → get c store ≡ some row
    → o.reads ≡ true
    → o.from_utf8 row.refresh_tok ≡ some token
    → o.client_for_refresh row.provider_id ≡ ready
    → refresh_custody o store c now ≡ exchange o store c row token now (o.refresh_grant token)
unfolding refresh_custody refresh_row renew
refresh_custody-exchange o store c row token now here reads legible known =
    let opened : refresh_custody o store c now ≡ refresh_row o store c row now =
      rw (reads, refresh_custody, here) refl in
    let read : refresh_row o store c row now
        ≡ renew o store c row token now (o.client_for_refresh row.provider_id) =
      rw (legible, refresh_row) refl in
    opened ∙ read ∙ ap (λ (client : RefreshClient). renew o store c row token now client) known

lost_lem :
    (o : Outside) (k : Custodian) (c : CustodyId) (g : NewGrant) (now : Timestamp)
    → (o.writes && is_free (get c k.store)) ≡ false
    → (take_custody o k c g now).1 ≡ false
unfolding take_custody
lost_lem o k c g now lost = rw (lost, take_custody) refl

taken_row :
    (o : Outside) (k : Custodian) (c : CustodyId) (g : NewGrant) (now : Timestamp)
    → (take_custody o k c g now).1 ≡ true
    → get c (take_custody o k c g now).0.store ≡ some (new_row o c g now)
unfolding take_custody send
taken_row o k c g now returned = elim (Bool-cases (o.writes && is_free (get c k.store))) [
  | inl written ↦
      rw (written, take_custody)
        (elim (Bool-cases o.worker_runs) [
          | inl runs ↦ rw runs (get-insert_same c (new_row o c g now) k.store)
          | inr stopped ↦ rw stopped (get-insert_same c (new_row o c g now) k.store)
        ])
  | inr lost ↦ elim (true-false (sym returned ∙ lost_lem o k c g now lost)) [ ]
]

-- A grant that `take_custody` returned `Ok` for is the one that the next renewal spends, at any
-- later instant and whatever else the store holds by then: as long as the row is the one that the
-- login wrote, the row says whose grant it is and has its access token and expiry, and the renewal
-- sends the login's refresh token, in text as it came, to the provider and does what its answer
-- calls for. The row can be read and written, the bytes of the token read back as the token, and
-- the grant's provider is registered.
pub take_custody-refresh_custody :
    (o o' : Outside) (k : Custodian) (c : CustodyId) (g : NewGrant) (now later : Timestamp)
    (store : Store)
    → (take_custody o k c g now).1 ≡ true
    → get c store ≡ get c (take_custody o k c g now).0.store
    → o'.reads ≡ true
    → o'.writes ≡ true
    → o'.from_utf8 (o.as_bytes g.refresh_token) ≡ some g.refresh_token
    → o'.client_for_refresh g.provider_id ≡ ready
    → (row : CustodyRow) × (get c store ≡ some row)
      × IsOf o c g now row
      × Follows o' store c row g.refresh_token later
          (o'.refresh_grant g.refresh_token)
          (refresh_custody o' store c later)
take_custody-refresh_custody o o' k c g now later store returned kept reads writes legible known =
    let row = new_row o c g now in
    let here = kept ∙ taken_row o k c g now returned in
    (
      row,
      here,
      (refl, refl, refl, refl, refl, refl, refl, refl, refl, refl),
      subst (Follows o' store c row g.refresh_token later (o'.refresh_grant g.refresh_token))
          (sym (
            refresh_custody-exchange o' store c row g.refresh_token later here reads legible known))
          (exchange-Follows o' store c row g.refresh_token later (o'.refresh_grant g.refresh_token)
            writes),
    )
