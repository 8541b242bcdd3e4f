-- ===== src/Audit/Calls.antt =====
-- audit.rs: the calls of `record` that have not returned, and the events that they hold.
use session_broker.Base.{
  ℕ, ◌+◌, ◌*◌, ◌≤◌, ◌≡◌, ◌∷◌, [], ◌++◌, Bool, true, false, List, Option, none, some, length, All,
  arith,
}
use session_broker.Store.Rows.{AuditAction, gap, other, AuditRow}
use session_broker.Audit.Sink.{Phase, refused, passed, announcing, announced, entering, entered}

-- The events in a row: itself, or those that it says were dropped.
abbrev pub events_in : AuditAction → ℕ
events_in (gap n) = n
events_in (other a) = 1

abbrev pub is_event : AuditAction → Bool
is_event (gap n) = false
is_event (other a) = true

-- A call of `record` that has not returned, with its row.
abbrev pub Call : Type 0
Call = Phase × AuditRow

abbrev pub staying : Option Phase → AuditRow → List Call
staying none row = []
staying (some phase) row = (phase, row) ∷ []

abbrev pub total : (Phase → ℕ) → List Call → ℕ
total f [] = 0
total f ((phase, row) ∷ calls) = f phase + total f calls

pub total-append :
    (f : Phase → ℕ) (xs ys : List Call) → total f (xs ++ ys) ≡ total f xs + total f ys
total-append f [] ys = omega arith
total-append f ((phase, row) ∷ xs) ys = omega (arith, total-append f xs ys)

-- The rows of a call that `depth` counts and the queue does not have yet.
abbrev pub in_depth : Phase → ℕ
in_depth (announced dropped) = 1
in_depth entered = 1
in_depth _ = 0

-- The rows that a call may still count in `depth`.
abbrev pub to_come : Phase → ℕ
to_come refused = 0
to_come passed = 2
to_come (announcing dropped) = 2
to_come (announced dropped) = 1
to_come entering = 1
to_come entered = 0

-- The events that a call holds: its own, and those of the gap that it took.
abbrev pub held : Phase → ℕ
held (announcing dropped) = dropped + 1
held (announced dropped) = dropped + 1
held _ = 1

abbrev pub IsPlain : Call → Type 0
IsPlain call = events_in call.1.action ≡ 1

pub to_come_le : (calls : List Call) → total to_come calls ≤ 2 * length calls
to_come_le [] = omega arith
to_come_le ((refused, row) ∷ calls) = omega (arith, to_come_le calls)
to_come_le ((passed, row) ∷ calls) = omega (arith, to_come_le calls)
to_come_le ((announcing n, row) ∷ calls) = omega (arith, to_come_le calls)
to_come_le ((announced n, row) ∷ calls) = omega (arith, to_come_le calls)
to_come_le ((entering, row) ∷ calls) = omega (arith, to_come_le calls)
to_come_le ((entered, row) ∷ calls) = omega (arith, to_come_le calls)

pub All-split : (P : Call → Type 0) (xs ys : List Call) → All P (xs ++ ys) → All P xs × All P ys
All-split P [] ys a = (tt, a)
All-split P (x ∷ xs) ys a = let (l, r) = All-split P xs ys a.1 in ((a.0, l), r)

pub staying-IsPlain :
    (next : Option Phase) (row : AuditRow)
    → events_in row.action ≡ 1
    → All IsPlain (staying next row)
staying-IsPlain none row one = tt
staying-IsPlain (some phase) row one = (one, tt)

pub length-append : (xs ys : List Call) → length (xs ++ ys) ≡ length xs + length ys
length-append [] ys = omega arith
length-append (x ∷ xs) ys = omega (arith, length-append xs ys)

-- A sum over the calls, before and after the step of one of them.
pub total_split :
    (f : Phase → ℕ) (xs ys zs : List Call)
    → total f (xs ++ (ys ++ zs)) ≡ total f xs + total f ys + total f zs
total_split f xs ys zs = omega (arith, total-append f xs (ys ++ zs), total-append f ys zs)

pub held_positive : (phase : Phase) → 1 ≤ held phase
held_positive refused = omega arith
held_positive passed = omega arith
held_positive (announcing n) = omega arith
held_positive (announced n) = omega arith
held_positive entering = omega arith
held_positive entered = omega arith
