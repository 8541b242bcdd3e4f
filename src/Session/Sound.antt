-- ===== src/Session/Sound.antt =====
-- session.rs, `SessionEntry`: the invariant of one session, through minting, sliding and reaping.
use session_broker.Base.{
  ℕ, ◌+◌, ◌≤◌, ◌<◌, ◌≡◌, refl, ap, ◌∷◌, [], ◌++◌, List, none, some, max, arith, length, All, ◌^◌,
  All-append,
}
use session_broker.Clock.{Timestamp}
use session_broker.Session.Types.{
  TokenHash, SessionToken, SessionPolicy, Generation, SessionEntry, IndexEffects,
}
use session_broker.Session.Entry.{current, mint, slide, reap_generations, minted_gen, next_gen_no}
use session_broker.Session.Reaping.{reap_expired_retired, cap_live_retired, length-cap_live}
use session_broker.Session.Newest.{last_gen-append}
use session_broker.Session.Minting.{mint_lem, reap_generations_lem, survivors, survivors-All}

-- A generation that has a successor: an older number, and the instant of its supersession.
abbrev pub IsOlder : ℕ → Generation → Type 0
IsOlder current_gen g = (at : Timestamp) × (g.superseded_at ≡ some at) × (g.gen_no < current_gen)

-- The newest generation stands last, alone carries the current number, and alone has no
-- successor; the lists keep to the limits of the policy; idle expiry is under the ceiling.
pub record IsSound (p : SessionPolicy) (e : SessionEntry) : Type 0 where
  pub older : List Generation
  pub newest : Generation
  pub gens_eq : e.gens ≡ older ++ newest ∷ []
  pub newest_no : newest.gen_no ≡ e.current_gen
  pub newest_open : newest.superseded_at ≡ none
  pub older_closed : All (IsOlder e.current_gen) older
  pub live_bound : length e.gens ≤ max p.max_live_gens 1
  pub retired_bound : length e.retired_gens ≤ p.retired_memory
  pub idle_bound : e.idle_exp ≤ e.absolute_exp

IsOlder-mono : (c : ℕ) (gs : List Generation) → All (IsOlder c) gs → All (IsOlder (c + 1)) gs
IsOlder-mono c [] a = tt
IsOlder-mono c (g ∷ gs) (a, as') = ((a.0, a.1, omega arith), IsOlder-mono c gs as')

next_gen_no_lem : (c : ℕ) → c + 1 < 2 ^ 32 → next_gen_no c ≡ c + 1
next_gen_no_lem c h = omega arith

pub reap_generations-IsSound :
    (p : SessionPolicy) (now : Timestamp) (e : SessionEntry)
    → IsSound p e
    → IsSound p (reap_generations e now p).0
unfolding reap_generations
reap_generations-IsSound p now e s = record {
  older = (survivors p now e.current_gen e.retired_gens s.older).0;
  newest = s.newest;
  gens_eq =
      ap (λ (x : SessionEntry × IndexEffects). x.0.gens)
        (reap_generations_lem p now e s.older s.newest s.gens_eq s.newest_no);
  newest_no = s.newest_no;
  newest_open = s.newest_open;
  older_closed = survivors-All (IsOlder e.current_gen) p now _ _ _ s.older_closed;
  live_bound = length-cap_live p _ _;
  retired_bound = cap_live_retired p _ _ (reap_expired_retired p now _ _ _ s.retired_bound);
  idle_bound = s.idle_bound;
}

module _ (hash : SessionToken → TokenHash) (token : SessionToken) (p : SessionPolicy)
    (now : Timestamp) (e : SessionEntry) where
  -- `mint` keeps a session sound if a generation number is left in `u32`: the new generation is
  -- the last and the only open one, all others are closed and numbered below it, there are at
  -- most `max(max_live_gens, 1)` of them, and at most `retired_memory` retired hashes.
  pub mint-IsSound :
      IsSound p e → e.current_gen + 1 < 2 ^ 32 → IsSound p (mint hash token e now p).0
  unfolding mint reap_generations
  mint-IsSound s room =
      let shut : All (IsOlder (next_gen_no e.current_gen))
          (s.older ++ record (s.newest) { superseded_at = some now } ∷ []) =
        rw (next_gen_no_lem e.current_gen room) (
          All-append (IsOlder (e.current_gen + 1)) s.older _
            (IsOlder-mono e.current_gen s.older s.older_closed)
            ((now, refl, omega (arith, s.newest_no)), tt)) in
      record {
        older =
            (survivors p now (next_gen_no e.current_gen) e.retired_gens
              (s.older ++ record (s.newest) { superseded_at = some now } ∷ [])).0;
        newest = minted_gen hash token e now p;
        gens_eq =
            ap (λ (x : SessionEntry × IndexEffects). x.0.gens)
              (mint_lem hash token p now e s.older s.newest s.gens_eq);
        newest_no = refl;
        newest_open = refl;
        older_closed = survivors-All (IsOlder (next_gen_no e.current_gen)) p now _ _ _ shut;
        live_bound = length-cap_live p _ _;
        retired_bound = cap_live_retired p _ _ (reap_expired_retired p now _ _ _ s.retired_bound);
        idle_bound = s.idle_bound;
      }

pub slide-IsSound :
    (p : SessionPolicy) (now : Timestamp) (e : SessionEntry)
    → IsSound p e
    → IsSound p (slide e now p)
unfolding slide
slide-IsSound p now e s = record {
  older = s.older;
  newest = s.newest;
  gens_eq = s.gens_eq;
  newest_no = s.newest_no;
  newest_open = s.newest_open;
  older_closed = s.older_closed;
  live_bound = s.live_bound;
  retired_bound = s.retired_bound;
  idle_bound = omega arith;
}

pub current-newest :
    (p : SessionPolicy) (e : SessionEntry) (s : IsSound p e) → current e ≡ some s.newest
unfolding current
current-newest p e s = rw s.gens_eq (last_gen-append s.older s.newest)
