-- ===== src/Custody/Renewal.antt =====
-- custody.rs: what a renewal leaves in the store.
use mathlib.Core.Path.{subst}
use session_broker.Base.{
  ◌≡◌, ◌⊎◌, refl, sym, true, none, some, get, insert, get-insert, inl, inr, Bool-cases,
  Option-cases, arith, Option,
}
use session_broker.Clock.{Timestamp}
use session_broker.Session.Types.{CustodyId, ok}
use session_broker.Keepalive.Scheduler.{RefreshOutcome, success, transient, permanent}
use session_broker.Custody.Grant.{
  Token, CustodyRow, Store, RefreshClient, ready, gone, unavailable, RefreshedGrant, RefreshGrant,
  granted, failed_transient, failed_permanent, Outside, renewed_row, is_rotated, or_else,
  keep_grant, exchange, renew, refresh_row, refresh_custody,
}

pub get-insert_same :
    (c : CustodyId) (row : CustodyRow) (store : Store) → get c (insert c row store) ≡ some row
get-insert_same c row store = ground (arith, get-insert c c row store)

-- The token to use next: the provider's new one if it rotated the token, else the spent one.
abbrev pub IsNext : Token → Option Token → Token → Type 0
IsNext spent none next = next ≡ spent
IsNext spent (some rotated) next = next ≡ rotated

-- What the columns that a renewal writes hold after it.
abbrev pub Holds : Outside → Token → RefreshedGrant → Timestamp → CustodyRow → Type 0
Holds o next grant now row =
    (row.refresh_tok ≡ o.as_bytes next)
    × (row.access_tok ≡ o.as_bytes grant.access_token)
    × (row.access_exp ≡ grant.expires_at)
    × (row.next_refresh ≡ grant.expires_at)
    × (row.status ≡ ok)
    × (row.fail_count ≡ 0)
    × (row.updated_at ≡ now)

-- The columns that no renewal writes.
abbrev pub KeepsOwner : CustodyRow → CustodyRow → Type 0
KeepsOwner row row' =
    (row'.custody_id ≡ row.custody_id)
    × (row'.sub ≡ row.sub)
    × (row'.scope ≡ row.scope)
    × (row'.provider_id ≡ row.provider_id)

-- A grant is dead: its row has vanished or holds no text, its provider was deleted, or the
-- provider calls it so.
abbrev pub IsDeadGrant : Outside → Store → CustodyId → Type 0
IsDeadGrant o store c =
    (get c store ≡ none)
    ⊎ ((row : CustodyRow) × (get c store ≡ some row)
        × ((o.from_utf8 row.refresh_tok ≡ none)
            ⊎ (o.client_for_refresh row.provider_id ≡ gone)
            ⊎ ((token : Token) × (o.from_utf8 row.refresh_tok ≡ some token)
                × (o.refresh_grant token ≡ failed_permanent))))

-- The provider granted the stored token, and the store differs in the row of this custody alone,
-- which holds the token to use next.
abbrev pub IsRenewed : Outside → Store → CustodyId → Timestamp → Store × RefreshOutcome → Type 0
IsRenewed o store c now r =
    (row : CustodyRow) × (token : Token) × (grant : RefreshedGrant) × (get c store ≡ some row)
    × (o.from_utf8 row.refresh_tok ≡ some token)
    × (o.client_for_refresh row.provider_id ≡ ready)
    × (o.refresh_grant token ≡ granted grant)
    × (r.1 ≡ success grant.lifetime_secs (is_rotated grant.rotated_refresh_token))
    × (row' : CustodyRow) × (next : Token) × (r.0 ≡ insert c row' store)
    × IsNext token grant.rotated_refresh_token next
    × Holds o next grant now row'
    × KeepsOwner row row'

abbrev pub Verdict : Outside → Store → CustodyId → Timestamp → Store × RefreshOutcome → Type 0
Verdict o store c now r =
    IsRenewed o store c now r
    ⊎ ((r ≡ (store, transient none))
        ⊎ ((r ≡ (store, permanent)) × (o.reads ≡ true) × IsDeadGrant o store c))

pub or_else-IsNext :
    (spent : Token) (rotated : Option Token) → IsNext spent rotated (or_else rotated spent)
or_else-IsNext spent none = refl
or_else-IsNext spent (some t) = refl

module _ (o : Outside) (store : Store) (c : CustodyId) (now : Timestamp) (row : CustodyRow)
    (here : get c store ≡ some row) (reads : o.reads ≡ true) where
  -- The row that a renewal writes.
  renewed_lem :
      (token : Token) (grant : RefreshedGrant)
      → let next = or_else grant.rotated_refresh_token token in
        let row' = renewed_row o row next grant now in
        Holds o next grant now row' × KeepsOwner row row'
  renewed_lem token grant = ((refl, refl, refl, refl, refl, refl, refl), (refl, refl, refl, refl))

  exchange_lem :
      (token : Token) (answer : RefreshGrant)
      → o.from_utf8 row.refresh_tok ≡ some token
      → o.client_for_refresh row.provider_id ≡ ready
      → o.refresh_grant token ≡ answer
      → Verdict o store c now (exchange o store c row token now answer)
  unfolding exchange keep_grant
  exchange_lem token failed_transient legible known answered = inr (inl refl)
  exchange_lem token failed_permanent legible known answered =
      inr (inr (refl, reads, inr (row, here, inr (inr (token, legible, answered)))))
  exchange_lem token (granted grant) legible known answered = elim (Bool-cases o.writes) [
    | inl written ↦
        let (holds, keeps) = renewed_lem token grant in
        let next = or_else grant.rotated_refresh_token token in
        rw written (
          inl (
            row,
            token,
            grant,
            here,
            legible,
            known,
            answered,
            refl,
            renewed_row o row next grant now,
            next,
            refl,
            or_else-IsNext token grant.rotated_refresh_token,
            holds,
            keeps,
          ))
    | inr lost ↦ rw lost (inr (inl refl))
  ]

  renew_lem :
      (token : Token) (client : RefreshClient)
      → o.from_utf8 row.refresh_tok ≡ some token
      → o.client_for_refresh row.provider_id ≡ client
      → Verdict o store c now (renew o store c row token now client)
  unfolding renew
  renew_lem token ready legible found =
      exchange_lem token (o.refresh_grant token) legible found refl
  renew_lem token gone legible found = inr (inr (refl, reads, inr (row, here, inr (inl found))))
  renew_lem token unavailable legible found = inr (inl refl)

  refresh_row_lem : Verdict o store c now (refresh_row o store c row now)
  unfolding refresh_row
  refresh_row_lem = elim (Option-cases (o.from_utf8 row.refresh_tok)) [
    | inl illegible ↦
        rw (illegible, refresh_row) (inr (inr (refl, reads, inr (row, here, inl illegible))))
    | inr (token, legible) ↦
        rw (legible, refresh_row)
          (renew_lem token (o.client_for_refresh row.provider_id) legible refl)
  ]

-- Whatever the reader, the writer, the provider registry and the provider answer, a renewal ends
-- in one of three ways. It is a success, and then the provider, which is registered, granted the
-- stored token, and the store differs in this row alone: it holds the token to use next (the
-- rotated one if there is one, else the spent one), the new access token with its expiry, a clean
-- status and count, and the owner, scope and provider that it had. Or it is to be
-- retried and the store is as it was. Or it is permanent, the store is as it was, and then the
-- row was read and the grant is dead; a failure to read or write is never permanent.
pub refresh_custody-Verdict :
    (o : Outside) (store : Store) (c : CustodyId) (now : Timestamp)
    → Verdict o store c now (refresh_custody o store c now)
unfolding refresh_custody
refresh_custody-Verdict o store c now = elim (Bool-cases o.reads) [
  | inr blind ↦ rw (blind, refresh_custody) (inr (inl refl))
  | inl reads ↦ elim (Option-cases (get c store)) [
    | inl vanished ↦ rw (reads, refresh_custody, vanished) (inr (inr (refl, refl, inl refl)))
    | inr (row, here) ↦
        let same : refresh_custody o store c now ≡ refresh_row o store c row now =
          rw (reads, refresh_custody, here) refl in
        subst (Verdict o store c now) (sym same) (refresh_row_lem o store c now row here reads)
  ]
]
