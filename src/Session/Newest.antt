-- ===== src/Session/Newest.antt =====
-- session.rs, `SessionEntry`: the newest generation, through `mint` and the reaper.
use session_broker.Base.{
  ℕ, ◌+◌, ◌<◌, ◌≡◌, refl, ap, ◌∷◌, [], ◌++◌, true, false, List, some, max, ltb, arith, length, All,
  Bool-cases, inl, inr, length-append,
}
use session_broker.Clock.{Timestamp}
use session_broker.Session.Types.{SessionPolicy, Generation}
use session_broker.Session.Entry.{
  Retirement, retire, is_reapable, reap_expired, cap_live, last_gen, supersede_last,
}

pub last_gen-append : (gs : List Generation) (g : Generation) → last_gen (gs ++ g ∷ []) ≡ some g
last_gen-append [] g = refl
last_gen-append (x ∷ []) g = refl
last_gen-append (x ∷ y ∷ gs) g = last_gen-append (y ∷ gs) g

pub supersede_last-append :
    (now : Timestamp) (gs : List Generation) (g : Generation)
    → supersede_last now (gs ++ g ∷ []) ≡ gs ++ record g { superseded_at = some now } ∷ []
unfolding supersede_last
supersede_last-append now [] g = refl
supersede_last-append now (x ∷ []) g = refl
supersede_last-append now (x ∷ y ∷ gs) g = ap (◌∷◌ x) (supersede_last-append now (y ∷ gs) g)

abbrev pub snoc : List Generation × Retirement → Generation → List Generation × Retirement
snoc (gs, r) g = (gs ++ g ∷ [], r)

-- A last generation that cannot be reaped stays last, and changes nothing for the others.
pub reap_expired-append :
    (p : SessionPolicy) (now c : ℕ) (gs : List Generation) (g : Generation) (r : Retirement)
    → is_reapable p now c g ≡ false
    → reap_expired p now c (gs ++ g ∷ []) r ≡ snoc (reap_expired p now c gs r) g
unfolding reap_expired
reap_expired-append p now c [] g r h = rw (h, reap_expired)
reap_expired-append p now c (x ∷ gs) g r h = elim (Bool-cases (is_reapable p now c x)) [
  | inl e ↦ rw (e, reap_expired) (reap_expired-append p now c gs g (retire p x r) h)
  | inr e ↦ rw (e, reap_expired) (rw (reap_expired-append p now c gs g r h))
]

-- The cap on the generations before the last.
pub cap_older : SessionPolicy → List Generation → Retirement → List Generation × Retirement
cap_older p [] r = ([], r)
cap_older p (g ∷ gs) r = elim (ltb (max p.max_live_gens 1) (length (g ∷ gs) + 1)) [
  | true ↦ cap_older p gs (retire p g r)
  | false ↦ (g ∷ gs, r)
]

pub cap_live-append :
    (p : SessionPolicy) (gs : List Generation) (g : Generation) (r : Retirement)
    → cap_live p (gs ++ g ∷ []) r ≡ snoc (cap_older p gs r) g
unfolding cap_live cap_older
cap_live-append p [] g r = ground arith
cap_live-append p (x ∷ gs) g r =
    ground (arith, length-append gs (g ∷ []), cap_live-append p gs g (retire p x r))

-- Where the cap is not reached nothing goes.
pub cap_older-id :
    (p : SessionPolicy) (gs : List Generation) (r : Retirement)
    → length gs < max p.max_live_gens 1
    → cap_older p gs r ≡ (gs, r)
unfolding cap_older
cap_older-id p [] r h = refl
cap_older-id p (g ∷ gs) r h = ground arith

pub cap_older-All :
    (P : Generation → Type 0) (p : SessionPolicy) (gs : List Generation) (r : Retirement)
    → All P gs
    → All P (cap_older p gs r).0
unfolding cap_older
cap_older-All P p [] r a = a
cap_older-All P p (g ∷ gs) r a =
    elim (Bool-cases (ltb (max p.max_live_gens 1) (length (g ∷ gs) + 1))) [
      | inl e ↦ rw (e, cap_older) (cap_older-All P p gs (retire p g r) a.1)
      | inr e ↦ rw (e, cap_older) a
    ]
