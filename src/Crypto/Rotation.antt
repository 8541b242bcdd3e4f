-- ===== src/Crypto/Rotation.antt =====
-- store/crypto.rs: a rotation of the keyfile.
use mathlib.Core.Path.{subst}
use session_broker.Base.{
  ℕ, ◌+◌, ◌<◌, ◌≡◌, refl, sym, ap, ◌∙◌, ◌∷◌, [], Bool, none, some, ◌==◌, if◌then◌else◌, get, insert,
  get-insert, arith, inl, inr, Bool-cases, Option-cases, none-some, some-inj,
}
use session_broker.Crypto.Envelope.{
  Bytes, KeyBytes, Aead, KeyRing, Opened, plain, key_id_of, open_body, open_sealed, rotate,
}
use session_broker.Crypto.Opening.{IsRing}

short_plain : (n : ℕ) (m : Bytes) → Opened.too_short n ≡ plain m → ⊥
short_plain n m h = cc

module _ (cipher : Aead) where
  -- Rings that agree on the key of a value agree on the value.
  pub open_same :
      (ring ring' : KeyRing) (sealed context : Bytes) (kid : ℕ)
      → key_id_of sealed ≡ some kid
      → get kid ring.keys ≡ get kid ring'.keys
      → open_sealed cipher ring sealed context ≡ open_sealed cipher ring' sealed context
  unfolding open_sealed open_body
  open_same ring ring' [] context kid id same = refl
  open_same ring ring' (b ∷ []) context kid id same = refl
  open_same ring ring' (b ∷ k ∷ rest) context kid id same = ground (arith, same)

  pub opened_id :
      (ring : KeyRing) (sealed context m : Bytes)
      → open_sealed cipher ring sealed context ≡ plain m
      → (kid : ℕ) × (key : KeyBytes) × (key_id_of sealed ≡ some kid)
        × (get kid ring.keys ≡ some key)
  unfolding open_sealed open_body
  opened_id ring [] context m opened = elim (short_plain 0 m opened) [ ]
  opened_id ring (b ∷ []) context m opened = elim (short_plain 1 m opened) [ ]
  opened_id ring (b ∷ k ∷ rest) context m opened = elim (Option-cases (get k ring.keys)) [
    | inl missing ↦ absurd (ground (arith, missing))
    | inr (key, held) ↦ (k, key, ground (arith, opened), held)
  ]

abbrev next_ring : KeyRing → KeyBytes → KeyRing
next_ring ring key = record {
  active = ring.active + 1;
  keys = insert (ring.active + 1) key ring.keys;
}

next_ring-IsRing : (ring : KeyRing) (key : KeyBytes) → IsRing ring → IsRing (next_ring ring key)
next_ring-IsRing ring key ok = record {
  active_key = key;
  holds_active = ground (arith, get-insert (ring.active + 1) (ring.active + 1) key ring.keys);
  highest = λ kid k held.
      ground (arith, get-insert (ring.active + 1) kid key ring.keys, ok.highest kid k, held);
}

next_ring_opens :
    (cipher : Aead) (ring : KeyRing) (key : KeyBytes) (sealed context m : Bytes)
    → IsRing ring
    → open_sealed cipher ring sealed context ≡ plain m
    → open_sealed cipher (next_ring ring key) sealed context ≡ plain m
next_ring_opens cipher ring key sealed context m ok opened =
    let (kid, k, named, held) = opened_id cipher ring sealed context m opened in
    let older = ok.highest kid k held in
    let same : get kid ring.keys ≡ get kid (insert (ring.active + 1) key ring.keys) =
      ground (arith, get-insert (ring.active + 1) kid key ring.keys, older) in
    sym (open_same cipher ring (next_ring ring key) sealed context kid named same) ∙ opened

-- A rotation gives a well-formed ring with the new key active under a higher identifier, and a
-- value that opened before it opens to the same plaintext after it. The ring is well-formed.
pub rotate-open_sealed :
    (cipher : Aead) (ring ring' : KeyRing) (key : KeyBytes) (id : ℕ) (sealed context m : Bytes)
    → IsRing ring
    → rotate ring key ≡ some (ring', id)
    → open_sealed cipher ring sealed context ≡ plain m
    → IsRing ring'
      × (ring'.active ≡ id)
      × (ring.active < id)
      × (open_sealed cipher ring' sealed context ≡ plain m)
unfolding rotate
rotate-open_sealed cipher ring ring' key id sealed context m ok rotated opened =
    elim (Bool-cases (ring.active == 255)) [
      | inl full ↦
          elim (none-some (
            ap (λ (b : Bool). if b then none else some (next_ring ring key, ring.active + 1))
              (sym full)
            ∙ rotated)) [ ]
      | inr room ↦
          let same =
            some-inj (next_ring ring key, ring.active + 1) (ring', id)
              (ap (λ (b : Bool). if b then none else some (next_ring ring key, ring.active + 1))
                  (sym room)
                ∙ rotated) in
          let ring_eq : next_ring ring key ≡ ring' = ap (λ (x : KeyRing × ℕ). x.0) same in
          let id_eq : ring.active + 1 ≡ id = ap (λ (x : KeyRing × ℕ). x.1) same in
          (
            subst IsRing ring_eq (next_ring-IsRing ring key ok),
            ap (λ (r : KeyRing). r.active) (sym ring_eq) ∙ id_eq,
            omega (arith, id_eq),
            ap (λ (r : KeyRing). open_sealed cipher r sealed context) (sym ring_eq)
                ∙ next_ring_opens cipher ring key sealed context m ok opened,
          )
    ]
