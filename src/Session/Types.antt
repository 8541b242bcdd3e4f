-- ===== src/Session/Types.antt =====
-- session.rs, the data: policy, generations, verdicts, entries, and the commands that the map
-- sends to the writer (store/writer.rs). Session, custody and subject identifiers are strings
-- that this code only compares, and tokens and their hashes likewise: each is a number here.
use session_broker.Base.{ℕ, Bool, List, Option, ◌*◌}
use session_broker.Clock.{Timestamp}

abbrev pub Sid : Type 0
Sid = ℕ

abbrev pub CustodyId : Type 0
CustodyId = ℕ

abbrev pub Subject : Type 0
Subject = ℕ

abbrev pub SessionToken : Type 0
SessionToken = ℕ

abbrev pub TokenHash : Type 0
TokenHash = ℕ

pub data RevocationPolicy : Type 0 where
  kill degrade : RevocationPolicy

pub record SessionPolicy : Type 0 where
  pub gen_ttl_secs : ℕ
  pub grace_secs : ℕ
  pub coalesce_secs : ℕ
  pub idle_ttl_secs : ℕ
  pub absolute_ttl_secs : ℕ
  pub max_live_gens : ℕ
  pub retired_memory : ℕ
  pub on_upstream_revoked : RevocationPolicy

abbrev pub default_policy : SessionPolicy
default_policy = record {
  gen_ttl_secs = 600;
  grace_secs = 60;
  coalesce_secs = 30;
  idle_ttl_secs = 7 * 24 * 3600;
  absolute_ttl_secs = 30 * 24 * 3600;
  max_live_gens = 4;
  retired_memory = 8;
  on_upstream_revoked = kill;
}

pub data SessionStatus : Type 0 where
  alive tombstoned : SessionStatus

pub data CustodyStatus : Type 0 where
  ok degraded dead : CustodyStatus

pub record Generation : Type 0 where
  pub gen_no : ℕ  -- u32
  pub token_hash : TokenHash
  pub created_at : Timestamp
  pub active_until : Timestamp
  pub superseded_at : Option Timestamp

pub data ExpiredReason : Type 0 where
  idle absolute logged_out upstream_revoked : ExpiredReason

pub data Resolution : Type 0 where
  unknown : Resolution
  active : Sid → ℕ → Bool → Resolution
  stale_refreshable : Sid → ℕ → Resolution
  retired : Sid → ℕ → Resolution
  hard_expired : Sid → ExpiredReason → Resolution

pub data RefreshDenied : Type 0 where
  unknown : RefreshDenied
  retired : Sid → ℕ → RefreshDenied
  expired : Sid → ExpiredReason → RefreshDenied

pub record SessionMeta : Type 0 where
  pub v : ℕ
  pub sub : Subject
  pub sid : Sid
  pub gen : ℕ
  pub active_until : Timestamp
  pub refresh_until : Timestamp
  pub absolute_until : Timestamp
  pub custody : CustodyStatus

pub record RestoredSession : Type 0 where
  pub sid : Sid
  pub custody : CustodyId
  pub sub : Subject
  pub current_gen : ℕ
  pub idle_exp : Timestamp
  pub absolute_exp : Timestamp
  pub gens : List Generation

pub data KillReason : Type 0 where
  logged_out upstream_revoked admin_revoked : KillReason

pub data SessionEvent : Type 0 where
  session_killed : Sid → KillReason → SessionEvent
  custody_changed : Sid → CustodyStatus → SessionEvent

pub record IssuedCookies : Type 0 where
  pub token : SessionToken
  pub meta : SessionMeta
  pub rotated : Bool

pub record IndexEffects : Type 0 where
  pub added : Option Generation
  pub superseded : Option (TokenHash × Timestamp)
  pub purged : List TokenHash

-- `gens` and `retired_gens` are oldest first. `retired_gens` is the field `retired`.
pub record SessionEntry : Type 0 where
  pub sid : Sid
  pub custody : CustodyId
  pub sub : Subject
  pub gens : List Generation
  pub current_gen : ℕ
  pub current_token : Option SessionToken
  pub idle_exp : Timestamp
  pub absolute_exp : Timestamp
  pub status : SessionStatus
  pub tombstoned_at : Option Timestamp
  pub custody_status : CustodyStatus
  pub retired_gens : List (TokenHash × ℕ)

pub record SessionRow : Type 0 where
  pub sid : Sid
  pub custody_id : CustodyId
  pub sub : Subject
  pub current_gen : ℕ
  pub idle_exp : Timestamp
  pub absolute_exp : Timestamp
  pub status : SessionStatus
  pub created_at : Timestamp

-- The commands of store/writer.rs that a `SessionMap` enqueues.
pub data Command : Type 0 where
  insert_session : SessionRow → Command
  update_session_progress : Sid → ℕ → Timestamp → Command
  tombstone_session : Sid → Timestamp → Command
  insert_generation : Sid → ℕ → TokenHash → Timestamp → Timestamp → Command
  supersede_generation : TokenHash → Timestamp → Command
  delete_generation : TokenHash → Command

-- `sessions` and `index` are the two `DashMap`s. `observer` is what an installed observer was
-- told, and `durability` what an attached writer was sent, oldest first.
pub record SessionMap : Type 0 where
  pub policy : SessionPolicy
  pub observer : Option (List SessionEvent)
  pub sessions : List (ℕ × SessionEntry)
  pub index : List (ℕ × Sid)
  pub durability : Option (List Command)
