-- ===== src/Custody/Grant.antt =====
-- custody.rs, `CustodySink` and `OidcUpstream`. The store is what its rows hold after decryption,
-- by custody. `Outside` is what the calls of other parts return in one run of a function: the
-- reader, the writer's acknowledgement, the provider registry and the identity provider.
use session_broker.Base.{
  ℕ, ◌-◌, ◌∷◌, [], ◌++◌, Bool, true, false, List, Option, none, some, max, min, ◌^◌, ◌&&◌, get,
  insert, if◌then◌else◌,
}
use session_broker.Clock.{Timestamp, plus_secs}
use session_broker.Session.Types.{CustodyId, CustodyStatus, ok, Subject}
use session_broker.Keepalive.Scheduler.{RefreshOutcome, success, transient, permanent}

-- Tokens, scopes and provider names are opaque; a stored token is its bytes.
abbrev pub Token : Type 0
Token = ℕ

abbrev pub Bytes : Type 0
Bytes = ℕ

abbrev pub ProviderId : Type 0
ProviderId = ℕ

pub record ScheduleRequest : Type 0 where
  pub custody : CustodyId
  pub issued_at : Timestamp
  pub lifetime_secs : ℕ

pub record NewGrant : Type 0 where
  pub sub : Subject
  pub refresh_token : Token
  pub access_token : Token
  pub access_exp : Timestamp
  pub scope : Option ℕ
  pub provider_id : ProviderId

pub record CustodyRow : Type 0 where
  pub custody_id : CustodyId
  pub sub : Subject
  pub refresh_tok : Bytes
  pub access_tok : Bytes
  pub access_exp : Timestamp
  pub scope : Option ℕ
  pub status : CustodyStatus
  pub next_refresh : Timestamp
  pub fail_count : ℕ
  pub updated_at : Timestamp
  pub provider_id : ProviderId

abbrev pub Store : Type 0
Store = List (ℕ × CustodyRow)

pub data RefreshClient : Type 0 where
  ready gone unavailable : RefreshClient

pub record RefreshedGrant : Type 0 where
  pub access_token : Token
  pub rotated_refresh_token : Option Token
  pub expires_at : Timestamp
  pub lifetime_secs : ℕ

pub data RefreshGrant : Type 0 where
  granted : RefreshedGrant → RefreshGrant
  failed_transient failed_permanent : RefreshGrant

pub record Outside : Type 0 where
  pub reads : Bool
  pub writes : Bool
  pub worker_runs : Bool
  pub as_bytes : Token → Bytes
  pub from_utf8 : Bytes → Option Token
  pub client_for_refresh : ProviderId → RefreshClient
  pub refresh_grant : Token → RefreshGrant
  -- `(lifetime_secs as f64 * lead_fraction) as u64`
  pub lead : ℕ → ℕ

-- The store and the requests in the worker's channel.
pub record Custodian : Type 0 where
  pub store : Store
  pub scheduled : List ScheduleRequest

-- `access_exp.secs().saturating_sub(now.secs()).max(1) as u64`
abbrev lifetime : NewGrant → Timestamp → ℕ
lifetime g now = max (min (g.access_exp - now) (2 ^ 63 - 1)) 1

abbrev pub new_row : Outside → CustodyId → NewGrant → Timestamp → CustodyRow
new_row o c g now = record {
  custody_id = c;
  sub = g.sub;
  refresh_tok = o.as_bytes g.refresh_token;
  access_tok = o.as_bytes g.access_token;
  access_exp = g.access_exp;
  scope = g.scope;
  status = ok;
  next_refresh = plus_secs now (o.lead (lifetime g now));
  fail_count = 0;
  updated_at = now;
  provider_id = g.provider_id;
}

abbrev request : CustodyId → NewGrant → Timestamp → ScheduleRequest
request c g now = record { custody = c; issued_at = now; lifetime_secs = lifetime g now }

-- `send`: a request that finds no worker is dropped.
unfoldable pub send : Outside → ScheduleRequest → Custodian → Custodian
send o r k = if o.worker_runs then record k { scheduled = k.scheduled ++ r ∷ [] } else k

abbrev pub is_free : Option CustodyRow → Bool
is_free none = true
is_free (some row) = false

-- Whether it returned `Ok`. The identifier is the table's primary key.
unfoldable pub take_custody :
    Outside → Custodian → CustodyId → NewGrant → Timestamp → Custodian × Bool
unfolding send
take_custody o k c g now =
    if o.writes && is_free (get c k.store)
    then (
      send o (request c g now) (record k { store = insert c (new_row o c g now) k.store }),
      true,
    )
    else (k, false)

abbrev pub renewed_row : Outside → CustodyRow → Token → RefreshedGrant → Timestamp → CustodyRow
renewed_row o row refresh_to_store grant now = record row {
  refresh_tok = o.as_bytes refresh_to_store;
  access_tok = o.as_bytes grant.access_token;
  access_exp = grant.expires_at;
  next_refresh = grant.expires_at;
  status = ok;
  fail_count = 0;
  updated_at = now;
}

abbrev pub is_rotated : Option Token → Bool
is_rotated none = false
is_rotated (some t) = true

abbrev pub or_else : Option Token → Token → Token
or_else none t = t
or_else (some r) t = r

-- From the durable write to the end of `refresh`.
unfoldable pub keep_grant :
    Outside
    → Store
    → CustodyId
    → CustodyRow
    → Token
    → RefreshedGrant
    → Timestamp
    → Store × RefreshOutcome
keep_grant o store c row spent grant now =
    if o.writes
    then (
      insert c (renewed_row o row (or_else grant.rotated_refresh_token spent) grant now) store,
      success grant.lifetime_secs (is_rotated grant.rotated_refresh_token),
    )
    else (store, transient none)

-- `oidc.refresh_grant` and what follows.
unfoldable pub exchange :
    Outside
    → Store
    → CustodyId
    → CustodyRow
    → Token
    → Timestamp
    → RefreshGrant
    → Store × RefreshOutcome
unfolding keep_grant
exchange o store c row spent now (granted grant) = keep_grant o store c row spent grant now
exchange o store c row spent now failed_transient = (store, transient none)
exchange o store c row spent now failed_permanent = (store, permanent)

unfoldable pub renew :
    Outside
    → Store
    → CustodyId
    → CustodyRow
    → Token
    → Timestamp
    → RefreshClient
    → Store × RefreshOutcome
unfolding exchange
renew o store c row token now ready = exchange o store c row token now (o.refresh_grant token)
renew o store c row token now gone = (store, permanent)
renew o store c row token now unavailable = (store, transient none)

unfoldable pub refresh_row :
    Outside → Store → CustodyId → CustodyRow → Timestamp → Store × RefreshOutcome
unfolding renew
refresh_row o store c row now = elim (o.from_utf8 row.refresh_tok) [
  | none ↦ (store, permanent)
  | some token ↦ renew o store c row token now (o.client_for_refresh row.provider_id)
]

unfoldable pub refresh_custody : Outside → Store → CustodyId → Timestamp → Store × RefreshOutcome
unfolding refresh_row
refresh_custody o store c now =
    if o.reads
    then elim (get c store) [ none ↦ (store, permanent) | some row ↦ refresh_row o store c row now ]
    else (store, transient none)
