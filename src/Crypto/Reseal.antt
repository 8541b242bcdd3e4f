-- ===== src/Crypto/Reseal.antt =====
-- store/repo.rs, `reseal_custody_with`: the pass that follows a rotation.
use session_broker.Base.{
  ℕ, suc, ◌≡◌, ◌⊎◌, refl, sym, ap, ◌∙◌, ◌∷◌, [], Bool, true, false, ◌&&◌, List, map, Option, none,
  some, length, All, get, arith, inl, inr, Bool-cases, true-false,
}
use session_broker.Crypto.Envelope.{
  Bytes, Aead, IsAuthentic, KeyRing, Opened, plain, key_id_of, open_sealed, SealedRow, Nonces,
  ResealReport, reseal_row, reseal_rows, rewritten, is_id,
}
use session_broker.Crypto.Opening.{IsRing, lone, lone_key, seal-open_sealed}
use session_broker.Crypto.Rotation.{open_same, opened_id}

abbrev pub both : Opened → Opened → Option (Bytes × Bytes)
both (plain m) (plain m') = some (m, m')
both _ _ = none

-- The two tokens of a row, if both values open.
unfoldable pub contents : Aead → (ℕ → Bool → Bytes) → KeyRing → SealedRow → Option (Bytes × Bytes)
contents cipher context_of ring row =
    both (open_sealed cipher ring row.refresh_tok (context_of row.custody_id true))
      (open_sealed cipher ring row.access_tok (context_of row.custody_id false))

both_cases :
    (o o' : Opened)
    → ((m : Bytes) × (m' : Bytes) × (o ≡ plain m) × (o' ≡ plain m')) ⊎ (both o o' ≡ none)
both_cases (plain m) (plain m') = inl (m, m', refl, refl)
both_cases (plain m) (Opened.too_short n) = inr refl
both_cases (plain m) (Opened.unknown_format n) = inr refl
both_cases (plain m) (Opened.unknown_key n) = inr refl
both_cases (plain m) Opened.unauthentic = inr refl
both_cases (Opened.too_short n) o' = inr refl
both_cases (Opened.unknown_format n) o' = inr refl
both_cases (Opened.unknown_key n) o' = inr refl
both_cases Opened.unauthentic o' = inr refl

both_eq : {o p o' p' : Opened} → o ≡ p → o' ≡ p' → both o o' ≡ both p p'
both_eq e e' = cc

cons_eq : {A : Type 0} {a b : A} {xs ys : List A} → a ≡ b → xs ≡ ys → a ∷ xs ≡ b ∷ ys
cons_eq e e' = cc

is_id-some : (id : ℕ) (o : Option ℕ) → is_id id o ≡ true → o ≡ some id
is_id-some id none h = elim (true-false (sym h)) [ ]
is_id-some id (some kid) h = ground (arith, h)

module _ (cipher : Aead) (safe : IsAuthentic cipher) (context_of : ℕ → Bool → Bytes)
    (ring : KeyRing) (ok : IsRing ring) where
  -- The same custody, and with the active key alone the contents that the whole ring found before.
  abbrev Result : SealedRow → Option (SealedRow × ResealReport) → Type 0
  Result row o =
      (row' : SealedRow) × (report : ResealReport) × (o ≡ some (row', report))
      × (row'.custody_id ≡ row.custody_id)
      × (contents cipher context_of (lone ring ok) row' ≡ contents cipher context_of ring row)

  -- What the active key alone opens the ring opens.
  lone_opens :
      (sealed context m : Bytes)
      → open_sealed cipher (lone ring ok) sealed context ≡ plain m
      → open_sealed cipher ring sealed context ≡ plain m
  unfolding get
  lone_opens sealed context m opened =
      let (kid, key, named, held) = opened_id cipher (lone ring ok) sealed context m opened in
      let same : kid ≡ ring.active = ground (arith, held) in
      sym (
        open_same cipher (lone ring ok) ring sealed context kid named (
          ap (λ (k : ℕ). get k (lone ring ok).keys) same
          ∙ lone_key ring ok
          ∙ sym ok.holds_active
          ∙ ap (λ (k : ℕ). get k ring.keys) (sym same)))
      ∙ opened

  -- A row with a value that does not open is left as it is.
  left_alone :
      (row : SealedRow) (report : ResealReport) (o o' : Opened)
      → open_sealed cipher ring row.refresh_tok (context_of row.custody_id true) ≡ o
      → open_sealed cipher ring row.access_tok (context_of row.custody_id false) ≡ o'
      → both o o' ≡ none
      → ((m m' : Bytes) → o ≡ plain m → o' ≡ plain m' → ⊥)
      → Result row (some (row, report))
  unfolding contents
  left_alone row report o o' h h' nothing never =
      let before : contents cipher context_of ring row ≡ none =
        ap
          (λ (x : Opened).
            both x (open_sealed cipher ring row.access_tok (context_of row.custody_id false)))
          h
        ∙ ap (λ (x : Opened). both o x) h'
        ∙ nothing in
      elim (both_cases
        (open_sealed cipher (lone ring ok) row.refresh_tok (context_of row.custody_id true))
        (open_sealed cipher (lone ring ok) row.access_tok (context_of row.custody_id false))) [
          | inl (m, m', opened, opened') ↦
              elim (never m m' (sym h ∙ lone_opens _ _ m opened)
                (sym h' ∙ lone_opens _ _ m' opened')) [ ]
          | inr after ↦ (row, report, refl, refl, after ∙ sym before)
        ]

  both_sealed :
      (nonces : Nonces) (row : SealedRow) (report : ResealReport) (x x' : Bytes)
      → length nonces.for_refresh ≡ 24
      → length nonces.for_access ≡ 24
      → open_sealed cipher ring row.refresh_tok (context_of row.custody_id true) ≡ plain x
      → open_sealed cipher ring row.access_tok (context_of row.custody_id false) ≡ plain x'
      → Result row (rewritten cipher context_of ring nonces row report (plain x) (plain x'))
  unfolding contents
  both_sealed nonces row report x x' long long' h h' =
      let (s, sealed, id, opens, only) =
        seal-open_sealed cipher safe ring (lone ring ok) nonces.for_refresh x
          (context_of row.custody_id true) [] ok (lone_key ring ok ∙ sym ok.holds_active) long in
      let (s', sealed', id', opens', only') =
        seal-open_sealed cipher safe ring (lone ring ok) nonces.for_access x'
          (context_of row.custody_id false) [] ok (lone_key ring ok ∙ sym ok.holds_active) long' in
      (
        record row { refresh_tok = s; access_tok = s' },
        record report { resealed = suc report.resealed },
        rw (sealed, sealed') refl,
        refl,
        both_eq opens opens' ∙ sym (both_eq h h'),
      )

  rewritten_lem :
      (nonces : Nonces) (row : SealedRow) (report : ResealReport) (o o' : Opened)
      → length nonces.for_refresh ≡ 24
      → length nonces.for_access ≡ 24
      → open_sealed cipher ring row.refresh_tok (context_of row.custody_id true) ≡ o
      → open_sealed cipher ring row.access_tok (context_of row.custody_id false) ≡ o'
      → Result row (rewritten cipher context_of ring nonces row report o o')
  rewritten_lem nonces row report (plain x) (plain x') long long' h h' =
      both_sealed nonces row report x x' long long' h h'
  rewritten_lem nonces row report (plain x) (Opened.too_short n) long long' h h' =
      left_alone row _ _ _ h h' refl (λ m m' e e'. cc)
  rewritten_lem nonces row report (plain x) (Opened.unknown_format n) long long' h h' =
      left_alone row _ _ _ h h' refl (λ m m' e e'. cc)
  rewritten_lem nonces row report (plain x) (Opened.unknown_key n) long long' h h' =
      left_alone row _ _ _ h h' refl (λ m m' e e'. cc)
  rewritten_lem nonces row report (plain x) Opened.unauthentic long long' h h' =
      left_alone row _ _ _ h h' refl (λ m m' e e'. cc)
  rewritten_lem nonces row report (Opened.too_short n) o' long long' h h' =
      left_alone row _ _ _ h h' refl (λ m m' e e'. cc)
  rewritten_lem nonces row report (Opened.unknown_format n) o' long long' h h' =
      left_alone row _ _ _ h h' refl (λ m m' e e'. cc)
  rewritten_lem nonces row report (Opened.unknown_key n) o' long long' h h' =
      left_alone row _ _ _ h h' refl (λ m m' e e'. cc)
  rewritten_lem nonces row report Opened.unauthentic o' long long' h h' =
      left_alone row _ _ _ h h' refl (λ m m' e e'. cc)

  abbrev current : SealedRow → Bool
  current row =
      is_id ring.active (key_id_of row.refresh_tok) && is_id ring.active (key_id_of row.access_tok)

  active_opens :
      (sealed context : Bytes)
      → is_id ring.active (key_id_of sealed) ≡ true
      → open_sealed cipher (lone ring ok) sealed context ≡ open_sealed cipher ring sealed context
  active_opens sealed context id = sym (
      open_same cipher ring (lone ring ok) sealed context ring.active
        (is_id-some ring.active (key_id_of sealed) id) (ok.holds_active ∙ sym (lone_key ring ok)))

  both_true : (a b : Bool) → (a && b) ≡ true → (a ≡ true) × (b ≡ true)
  both_true true b h = (refl, h)
  both_true false b h = elim (true-false (sym h)) [ ]

  reseal_row_lem :
      (nonces : Nonces) (row : SealedRow) (report : ResealReport)
      → length nonces.for_refresh ≡ 24
      → length nonces.for_access ≡ 24
      → Result row (reseal_row cipher context_of ring nonces row report)
  unfolding reseal_row contents
  reseal_row_lem nonces row report long long' = elim (Bool-cases (current row)) [
    | inl fresh ↦
        let (r, a) =
          both_true (is_id ring.active (key_id_of row.refresh_tok))
            (is_id ring.active (key_id_of row.access_tok)) fresh in
        rw fresh (
          row,
          record report { current = suc report.current },
          refl,
          refl,
          both_eq (active_opens row.refresh_tok (context_of row.custody_id true) r)
              (active_opens row.access_tok (context_of row.custody_id false) a),
        )
    | inr stale ↦ rw stale (rewritten_lem nonces row report _ _ long long' refl refl)
  ]

  reseal_all_lem :
      (rows : List (Nonces × SealedRow)) (report : ResealReport)
      → All
          (λ (x : Nonces × SealedRow). (length x.0.for_refresh ≡ 24) × (length x.0.for_access ≡ 24))
          rows
      → (rows' : List SealedRow) × (report' : ResealReport) × (reseal_rows cipher context_of ring
            rows report
          ≡ some (rows', report'))
        × (map (λ (r : SealedRow). r.custody_id) rows'
            ≡ map (λ (x : Nonces × SealedRow). x.1.custody_id) rows)
        × (map (contents cipher context_of (lone ring ok)) rows'
            ≡ map (λ (x : Nonces × SealedRow). contents cipher context_of ring x.1) rows)
  unfolding reseal_rows
  reseal_all_lem [] report long = ([], report, refl, refl, refl)
  reseal_all_lem ((nonces, row) ∷ rows) report long =
      let (row', report', ran, named, same) = reseal_row_lem nonces row report long.0.0 long.0.1 in
      let (rows', report'', ran', named', same') = reseal_all_lem rows report' long.1 in
      (
        row' ∷ rows',
        report'',
        rw (ran, reseal_rows, ran') refl,
        cons_eq named named',
        cons_eq same same',
      )

-- A pass over the sealed rows ends without a panic and keeps the custodies, and afterwards the
-- active key alone opens each row to what the whole ring opened it to before, so that these rows
-- no longer need the older keys. The ring is well-formed, the cipher authentic, and nonces have
-- 24 bytes.
pub reseal_rows-contents :
    (cipher : Aead) (context_of : ℕ → Bool → Bytes) (ring : KeyRing)
    (rows : List (Nonces × SealedRow)) (report : ResealReport)
    → IsAuthentic cipher
    → (ok : IsRing ring)
    → All
        (λ (x : Nonces × SealedRow). (length x.0.for_refresh ≡ 24) × (length x.0.for_access ≡ 24))
        rows
    → (rows' : List SealedRow) × (report' : ResealReport) × (reseal_rows cipher context_of ring rows
          report
        ≡ some (rows', report'))
      × (map (λ (r : SealedRow). r.custody_id) rows'
          ≡ map (λ (x : Nonces × SealedRow). x.1.custody_id) rows)
      × (map (contents cipher context_of (lone ring ok)) rows'
          ≡ map (λ (x : Nonces × SealedRow). contents cipher context_of ring x.1) rows)
reseal_rows-contents cipher context_of ring rows report safe ok long =
    reseal_all_lem cipher safe context_of ring ok rows report long
