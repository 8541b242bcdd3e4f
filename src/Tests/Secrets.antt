-- ===== src/Tests/Secrets.antt =====
-- A cipher that keeps the associated data in front of the message, two rings, and what the
-- theorems on store/crypto.rs say of them.
use session_broker.Base.{
  ℕ, ◌≡◌, ◌<◌, ◌⊎◌, refl, ◌∷◌, [], ◌++◌, Bool, true, false, List, map, Option, none, some, ◌==◌,
  if◌then◌else◌, length, get, insert, arith,
}
use session_broker.Crypto.Envelope.{
  Bytes, Aead, IsAuthentic, KeyRing, single, Opened, plain, take, drop, key_id_of, seal, open_body,
  open_sealed, rotate, SealedRow, Nonces, ResealReport, reseal_row, reseal_rows,
}
use session_broker.Crypto.Opening.{IsRing, lone, seal-open_sealed}
use session_broker.Crypto.Reseal.{contents, reseal_rows-contents}
use session_broker.Crypto.Rotation.{rotate-open_sealed}

strip : Bytes → Bytes → Option Bytes
strip [] r = some r
strip (x ∷ a) [] = none
strip (x ∷ a) (y ∷ r) = if x == y then strip a r else none

unprefix : Bytes → Bytes → Option Bytes
unprefix [] a = none
unprefix (l ∷ r) a = if l == length a then strip a r else none

abbrev cipher : Aead
cipher = record {
  encrypt = λ key nonce msg aad. length aad ∷ aad ++ msg;
  decrypt = λ key nonce ct aad. unprefix ct aad;
}

program : Unit {0}
unfolding get insert take drop seal open_body open_sealed rotate reseal_row reseal_rows contents
    strip unprefix
program = tt

strip-append : (a m : Bytes) → strip a (a ++ m) ≡ some m
unfolding strip
strip-append [] m = refl
strip-append (x ∷ a) m = ground (arith, strip-append a m)

strip_binds : (a a' m m' : Bytes) → length a ≡ length a' → strip a' (a ++ m) ≡ some m' → a ≡ a'
unfolding strip
strip_binds [] [] m m' e h = refl
strip_binds [] (y ∷ a') m m' e h = ground arith
strip_binds (x ∷ a) [] m m' e h = ground arith
strip_binds (x ∷ a) (y ∷ a') m m' e h = ground (arith, strip_binds a a' m m')

cipher-IsAuthentic : IsAuthentic cipher
unfolding unprefix
cipher-IsAuthentic = record {
  opens = λ key nonce msg aad. ground (arith, strip-append aad msg);
  binds = λ key nonce msg aad aad' msg' h. ground (arith, strip_binds aad aad' msg msg');
}

abbrev zeros : Bytes
zeros =
    0 ∷ 0 ∷ 0 ∷ 0 ∷ 0 ∷ 0 ∷ 0 ∷ 0 ∷ 0 ∷ 0 ∷ 0 ∷ 0 ∷ 0 ∷ 0 ∷ 0 ∷ 0 ∷ 0 ∷ 0 ∷ 0 ∷ 0 ∷ 0 ∷ 0 ∷ 0 ∷ 0
    ∷ []

abbrev old_ring : KeyRing
old_ring = single 1 1111

abbrev new_ring : KeyRing
new_ring = record { active = 2; keys = (1, 1111) ∷ (2, 2222) ∷ [] }

old_ring-IsRing : IsRing old_ring
unfolding get
old_ring-IsRing = record {
  active_key = 1111;
  holds_active = refl;
  highest = λ kid key held. ground (arith, held);
}

new_ring-IsRing : IsRing new_ring
unfolding get
new_ring-IsRing = record {
  active_key = 2222;
  holds_active = refl;
  highest = λ kid key held. ground (arith, held);
}

abbrev sealed_77 : Bytes
sealed_77 = 1 ∷ 1 ∷ zeros ++ 3 ∷ 1 ∷ 1 ∷ 5 ∷ 77 ∷ []

seal-open_sealed_example :
    (sealed : Bytes) × (seal cipher old_ring zeros (77 ∷ []) (5 ∷ []) ≡ some sealed)
    × (key_id_of sealed ≡ some 1)
    × (open_sealed cipher new_ring sealed (5 ∷ []) ≡ plain (77 ∷ []))
    × ((◌≡◌ {A = Bytes} (5 ∷ []) (6 ∷ []))
        ⊎ (open_sealed cipher new_ring sealed (6 ∷ []) ≡ Opened.unauthentic))
unfolding program
seal-open_sealed_example =
    seal-open_sealed cipher cipher-IsAuthentic old_ring new_ring zeros (77 ∷ []) (5 ∷ []) (6 ∷ [])
      old_ring-IsRing refl refl

rotate-open_sealed_example :
    IsRing new_ring
    × (new_ring.active ≡ 2)
    × (old_ring.active < 2)
    × (open_sealed cipher new_ring sealed_77 (5 ∷ []) ≡ plain (77 ∷ []))
unfolding program
rotate-open_sealed_example =
    rotate-open_sealed cipher old_ring new_ring 2222 2 sealed_77 (5 ∷ []) (77 ∷ []) old_ring-IsRing
      refl refl

abbrev context_of : ℕ → Bool → Bytes
context_of c true = 5 ∷ []
context_of c false = 6 ∷ []

-- One row under the old key, and one that was altered.
abbrev rows : List (Nonces × SealedRow)
rows =
    (
      record { for_refresh = zeros; for_access = zeros },
      record {
        custody_id = 7;
        refresh_tok = sealed_77;
        access_tok = 1 ∷ 1 ∷ zeros ++ 3 ∷ 1 ∷ 1 ∷ 6 ∷ 88 ∷ [];
      },
    )
    ∷ (
      record { for_refresh = zeros; for_access = zeros },
      record { custody_id = 8; refresh_tok = sealed_77; access_tok = 9 ∷ [] },
    )
    ∷ []

abbrev blank : ResealReport
blank = record { resealed = 0; current = 0; failed = 0 }

reseal_rows-contents_example :
    (rows' : List SealedRow) × (report' : ResealReport) × (reseal_rows cipher context_of new_ring
        rows blank
      ≡ some (rows', report'))
    × (map (λ (r : SealedRow). r.custody_id) rows' ≡ 7 ∷ 8 ∷ [])
    × (map (contents cipher context_of (lone new_ring new_ring-IsRing)) rows'
        ≡ some (77 ∷ [], 88 ∷ []) ∷ none ∷ [])
unfolding program
reseal_rows-contents_example =
    reseal_rows-contents cipher context_of new_ring rows blank cipher-IsAuthentic new_ring-IsRing
      ((refl, refl), ((refl, refl), tt))
