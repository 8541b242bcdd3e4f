-- ===== src/Crypto/Opening.antt =====
-- store/crypto.rs: what a ring opens.
use session_broker.Base.{
  ℕ, zero, suc, ◌≤◌, ◌≡◌, ◌⊎◌, refl, ap, ◌∙◌, ◌∷◌, [], ◌++◌, none, some, length, get, length-append,
  arith, inl, inr, Option-cases,
}
use session_broker.Crypto.Envelope.{
  Bytes, KeyBytes, Aead, IsAuthentic, KeyRing, single, aad, Opened, plain, take, drop, key_id_of,
  seal, open_sealed,
}

-- The active key is in the ring, and its identifier is the highest.
pub record IsRing (ring : KeyRing) : Type 0 where
  pub active_key : KeyBytes
  pub holds_active : get ring.active ring.keys ≡ some active_key
  pub highest : (kid : ℕ) (key : KeyBytes) → get kid ring.keys ≡ some key → kid ≤ ring.active

-- The ring with the active key only, as when the operator has deleted the older ones.
abbrev pub lone : (ring : KeyRing) → IsRing ring → KeyRing
lone ring ok = single ring.active ok.active_key

pub lone_key :
    (ring : KeyRing) (ok : IsRing ring) → get ring.active (lone ring ok).keys ≡ some ok.active_key
unfolding get
lone_key ring ok = ground arith

take-append : (xs ys : Bytes) (n : ℕ) → length xs ≡ n → take n (xs ++ ys) ≡ xs
unfolding take
take-append [] [] zero e = refl
take-append [] (y ∷ ys) zero e = refl
take-append [] ys (suc n) e = ground arith
take-append (x ∷ xs) ys zero e = ground arith
take-append (x ∷ xs) ys (suc n) e =
    ap (λ (l : Bytes). x ∷ l) (take-append xs ys n (omega (arith, e)))

drop-append : (xs ys : Bytes) (n : ℕ) → length xs ≡ n → drop n (xs ++ ys) ≡ ys
unfolding drop
drop-append [] [] zero e = refl
drop-append [] (y ∷ ys) zero e = refl
drop-append [] ys (suc n) e = ground arith
drop-append (x ∷ xs) ys zero e = ground arith
drop-append (x ∷ xs) ys (suc n) e = drop-append xs ys n (omega (arith, e))

same_tail : (kid : ℕ) (xs ys : Bytes) → aad kid xs ≡ aad kid ys → xs ≡ ys
same_tail kid xs ys h = cc

module _ (cipher : Aead) (safe : IsAuthentic cipher) where
  abbrev body : ℕ → KeyBytes → Bytes → Bytes → Bytes → Bytes
  body kid key nonce m context = 1 ∷ kid ∷ nonce ++ cipher.encrypt key nonce m (aad kid context)

  -- What any ring with the key makes of a sealed value.
  open_any :
      (ring : KeyRing) (kid : ℕ) (key : KeyBytes) (nonce m context context' : Bytes)
      → get kid ring.keys ≡ some key
      → length nonce ≡ 24
      → open_sealed cipher ring (body kid key nonce m context) context'
        ≡ elim (cipher.decrypt key nonce
            (cipher.encrypt key nonce m (aad kid context))
            (aad kid context')) [ none ↦ Opened.unauthentic | some m' ↦ plain m' ]
  unfolding open_sealed
  open_any ring kid key nonce m context context' held long =
      let ct = cipher.encrypt key nonce m (aad kid context) in
      ground
        (arith, length-append nonce ct, take-append nonce ct 24 long, drop-append nonce ct 24 long)

  -- A value opens under its own context only.
  bound :
      (ring : KeyRing) (kid : ℕ) (key : KeyBytes) (nonce m context context' : Bytes)
      → get kid ring.keys ≡ some key
      → length nonce ≡ 24
      → (context ≡ context')
        ⊎ (open_sealed cipher ring (body kid key nonce m context) context' ≡ Opened.unauthentic)
  bound ring kid key nonce m context context' held long =
      elim (Option-cases (
        cipher.decrypt key nonce (cipher.encrypt key nonce m (aad kid context))
          (aad kid context'))) [
            | inl refused ↦
                inr (rw (open_any ring kid key nonce m context context' held long, refused) refl)
            | inr (x, agreed) ↦ inl (
                same_tail kid context context'
                  (safe.binds key nonce m (aad kid context) (aad kid context') x agreed))
          ]

  seal_lem :
      (ring : KeyRing) (key : KeyBytes) (nonce m context : Bytes)
      → get ring.active ring.keys ≡ some key
      → seal cipher ring nonce m context ≡ some (body ring.active key nonce m context)
  unfolding seal
  seal_lem ring key nonce m context held = ground (arith, held)

  -- What the active key sealed is opened by every ring that has the same key under the same
  -- identifier, such as the ring after any number of rotations, to the same plaintext; under
  -- another context it is refused as unauthentic. The cipher is authentic, the ring well-formed,
  -- and the nonce has 24 bytes.
  pub seal-open_sealed :
      (ring ring' : KeyRing) (nonce m context context' : Bytes)
      → (ok : IsRing ring) → get ring.active ring'.keys ≡ get ring.active ring.keys
      → length nonce ≡ 24
      → (sealed : Bytes) × (seal cipher ring nonce m context ≡ some sealed)
        × (key_id_of sealed ≡ some ring.active)
        × (open_sealed cipher ring' sealed context ≡ plain m)
        × ((context ≡ context') ⊎ (open_sealed cipher ring' sealed context' ≡ Opened.unauthentic))
  seal-open_sealed ring ring' nonce m context context' ok same long =
      let key = ok.active_key in
      let kept = same ∙ ok.holds_active in
      let sealed = body ring.active key nonce m context in
      (
        sealed,
        seal_lem ring key nonce m context ok.holds_active,
        refl,
        rw
            (
              open_any ring' ring.active key nonce m context context kept long,
              safe.opens key nonce m (aad ring.active context),
            )
            refl,
        bound ring' ring.active key nonce m context context' kept long,
      )
