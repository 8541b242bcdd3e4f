-- ===== src/Crypto/Envelope.antt =====
-- store/crypto.rs: `KeyRing` with `seal` and `open`, and store/repo.rs, `reseal_custody_with`.
-- XChaCha20-Poly1305 is the parameter `Aead`, and the 24 random bytes of a nonce are an argument.
-- A byte is a number, and so is a key of 32 bytes.
use session_broker.Base.{
  ℕ, zero, suc, ◌≡◌, ◌+◌, ◌∷◌, [], ◌++◌, Bool, true, false, ◌&&◌, List, Option, none, some, ltb,
  ◌==◌, if◌then◌else◌, length, get, insert,
}

abbrev pub Bytes : Type 0
Bytes = List ℕ

abbrev pub KeyBytes : Type 0
KeyBytes = ℕ

-- The key, the nonce, the message or the ciphertext, and the associated data.
pub record Aead : Type 0 where
  pub encrypt : KeyBytes → Bytes → Bytes → Bytes → Bytes
  pub decrypt : KeyBytes → Bytes → Bytes → Bytes → Option Bytes

-- What is documented of the cipher: it decrypts what it encrypted, and nothing else of that
-- ciphertext than under the associated data that it was encrypted with.
pub record IsAuthentic (a : Aead) : Type 0 where
  pub opens :
      (key : KeyBytes) (nonce msg aad : Bytes)
      → a.decrypt key nonce (a.encrypt key nonce msg aad) aad ≡ some msg
  pub binds :
      (key : KeyBytes) (nonce msg aad aad' msg' : Bytes)
      → a.decrypt key nonce (a.encrypt key nonce msg aad) aad' ≡ some msg'
      → aad ≡ aad'

abbrev pub format_v1 : ℕ
format_v1 = 1

abbrev pub nonce_len : ℕ
nonce_len = 24

abbrev pub header_len : ℕ
header_len = 2

pub record KeyRing : Type 0 where
  pub active : ℕ
  pub keys : List (ℕ × KeyBytes)

abbrev pub single : ℕ → KeyBytes → KeyRing
single id key = record { active = id; keys = (id, key) ∷ [] }

abbrev pub aad : ℕ → Bytes → Bytes
aad kid context = format_v1 ∷ kid ∷ context

pub data Opened : Type 0 where
  plain : Bytes → Opened
  too_short : ℕ → Opened
  unknown_format : ℕ → Opened
  unknown_key : ℕ → Opened
  unauthentic : Opened

-- `split_at`.
unfoldable pub take : ℕ → Bytes → Bytes
take n [] = []
take zero (b ∷ bs) = []
take (suc n) (b ∷ bs) = b ∷ take n bs

unfoldable pub drop : ℕ → Bytes → Bytes
drop n [] = []
drop zero (b ∷ bs) = b ∷ bs
drop (suc n) (b ∷ bs) = drop n bs

-- Which key sealed a value, if it looks sealed.
abbrev pub key_id_of : Bytes → Option ℕ
key_id_of (format ∷ kid ∷ rest) = if format == format_v1 then some kid else none
key_id_of _ = none

abbrev pub is_id : ℕ → Option ℕ → Bool
is_id id none = false
is_id id (some kid) = kid == id

-- What `reseal_custody` found.
pub record ResealReport : Type 0 where
  pub resealed : ℕ
  pub current : ℕ
  pub failed : ℕ

-- The sealed columns of a custody, under its key.
pub record SealedRow : Type 0 where
  pub custody_id : ℕ
  pub refresh_tok : Bytes
  pub access_tok : Bytes

-- The nonces that the random source gives to one row.
pub record Nonces : Type 0 where
  pub for_refresh : Bytes
  pub for_access : Bytes

abbrev opened_of : Option Bytes → Opened
opened_of none = Opened.unauthentic
opened_of (some msg) = Opened.plain msg

module _ (cipher : Aead) where
  -- `none` is a panic: the active key is not in the ring.
  unfoldable pub seal : KeyRing → Bytes → Bytes → Bytes → Option Bytes
  seal ring nonce plaintext context = elim (get ring.active ring.keys) [
    | none ↦ none
    | some key ↦ some (
        format_v1 ∷ ring.active ∷ nonce
        ++ cipher.encrypt key nonce plaintext (aad ring.active context))
  ]

  abbrev decrypted : Bytes → ℕ → Bytes → Option KeyBytes → Opened
  decrypted rest kid context none = Opened.unknown_key kid
  decrypted rest kid context (some key) =
      opened_of (cipher.decrypt key (take nonce_len rest) (drop nonce_len rest) (aad kid context))

  unfoldable pub open_body : KeyRing → Bytes → Bytes → Opened
  unfolding take drop
  open_body ring (format ∷ kid ∷ rest) context =
      if format == format_v1
      then decrypted rest kid context (get kid ring.keys)
      else Opened.unknown_format format
  open_body ring bytes context = Opened.too_short (length bytes)

  unfoldable pub open_sealed : KeyRing → Bytes → Bytes → Opened
  unfolding open_body
  open_sealed ring sealed context =
      if ltb (length sealed) (header_len + nonce_len)
      then Opened.too_short (length sealed)
      else open_body ring sealed context

  -- `context` of a custody and a column is the parameter `context_of`: `true` is the refresh token.
  module _ (context_of : ℕ → Bool → Bytes) where
    abbrev pub written :
        SealedRow → ResealReport → Option Bytes → Option Bytes → Option (SealedRow × ResealReport)
    written row report (some refresh) (some access) = some (
      record row { refresh_tok = refresh; access_tok = access },
      record report { resealed = suc report.resealed },
    )
    written row report _ _ = none

    abbrev pub rewritten :
        KeyRing
        → Nonces
        → SealedRow
        → ResealReport
        → Opened
        → Opened
        → Option (SealedRow × ResealReport)
    rewritten ring nonces row report (Opened.plain refresh) (Opened.plain access) =
        written row report (seal ring nonces.for_refresh refresh (context_of row.custody_id true))
          (seal ring nonces.for_access access (context_of row.custody_id false))
    rewritten ring nonces row report _ _ = some (row, record report { failed = suc report.failed })

    unfoldable pub reseal_row :
        KeyRing → Nonces → SealedRow → ResealReport → Option (SealedRow × ResealReport)
    unfolding seal open_sealed
    reseal_row ring nonces row report =
        if is_id ring.active (key_id_of row.refresh_tok)
          && is_id ring.active (key_id_of row.access_tok)
        then some (row, record report { current = suc report.current })
        else rewritten ring nonces row report
            (open_sealed ring row.refresh_tok (context_of row.custody_id true))
            (open_sealed ring row.access_tok (context_of row.custody_id false))

    abbrev pub consed :
        SealedRow → Option (List SealedRow × ResealReport) → Option (List SealedRow × ResealReport)
    consed row none = none
    consed row (some (rows, report)) = some (row ∷ rows, report)

    -- The `for`, with the nonces drawn for each row.
    unfoldable pub reseal_rows :
        KeyRing → List (Nonces × SealedRow) → ResealReport → Option (List SealedRow × ResealReport)
    reseal_rows ring [] report = some ([], report)
    reseal_rows ring ((nonces, row) ∷ rows) report = elim (reseal_row ring nonces row report) [
      | none ↦ none
      | some (row', report') ↦ consed row' (reseal_rows ring rows report')
    ]

-- `rotate_keyfile`, between reading and writing the file. `none`: the keyring is full.
unfoldable pub rotate : KeyRing → KeyBytes → Option (KeyRing × ℕ)
rotate ring key =
    if ring.active == 255
    then none
    else some (
      record { active = ring.active + 1; keys = insert (ring.active + 1) key ring.keys },
      ring.active + 1,
    )
