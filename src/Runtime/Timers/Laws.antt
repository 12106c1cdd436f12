-- ===== src/Runtime/Timers/Laws.antt =====
-- Timers fire when they are due, in the order of their times, and no other way than by firing or
-- being cancelled does one disappear.
use stadhouder.Base.{inl, inr, List, [], ◌∷◌, ◌++◌, map, arith, All, Bool-cases}
use stadhouder.Base.Int.{ℤ, ◌≤ℤ◌, ◌<ℤ◌, leb_ℤ}
use mathlib.Core.List.{Perm, perm_middle}
use mathlib.Core.List.Perm
use stadhouder.Service.{ExpiredTimer}
use stadhouder.Runtime.{PendingTimer}
use stadhouder.Runtime.Timers.{fired, split_expired, insert_by_expiry, sort_by_expiry, expire}

module _ {V : Type 0} where
  -- Times do not fall along the list.
  abbrev pub IsSorted : List (ExpiredTimer V) → Type 0
  IsSorted [] = Unit
  IsSorted (t ∷ ts) = All (λ u. t.expiry_ms ≤ℤ u.expiry_ms) ts × IsSorted ts

  abbrev pub IsDueAt : ℤ → ExpiredTimer V → Type 0
  IsDueAt now t = t.expiry_ms ≤ℤ now

  abbrev pub IsAhead : ℤ → PendingTimer V → Type 0
  IsAhead now t = now <ℤ t.expiry_ms

  insert_by_expiry-All :
      (P : ExpiredTimer V → Type 0) (t : ExpiredTimer V) (us : List (ExpiredTimer V))
      → P t
      → All P us
      → All P (insert_by_expiry t us)
  unfolding insert_by_expiry
  insert_by_expiry-All P t [] p h = (p, tt)
  insert_by_expiry-All P t (u ∷ us) p h = elim (Bool-cases (leb_ℤ t.expiry_ms u.expiry_ms)) [
    | inl le ↦ rw (le, insert_by_expiry) (p, h)
    | inr gt ↦ rw (gt, insert_by_expiry) (h.0, insert_by_expiry-All P t us p h.1)
  ]

  All-trans :
      (t u : ExpiredTimer V) (us : List (ExpiredTimer V))
      → t.expiry_ms ≤ℤ u.expiry_ms
      → All (λ v. u.expiry_ms ≤ℤ v.expiry_ms) us
      → All (λ v. t.expiry_ms ≤ℤ v.expiry_ms) us
  All-trans t u [] h k = tt
  All-trans t u (v ∷ vs) h k = (omega arith, All-trans t u vs h k.1)

  insert_by_expiry-IsSorted :
      (t : ExpiredTimer V) (us : List (ExpiredTimer V))
      → IsSorted us
      → IsSorted (insert_by_expiry t us)
  unfolding insert_by_expiry
  insert_by_expiry-IsSorted t [] h = (tt, tt)
  insert_by_expiry-IsSorted t (u ∷ us) h = elim (Bool-cases (leb_ℤ t.expiry_ms u.expiry_ms)) [
    | inl le ↦
        rw (le, insert_by_expiry)
          ((ground (arith, le), All-trans t u us (ground (arith, le)) h.0), h)
    | inr gt ↦
        rw (gt, insert_by_expiry)
          (
            insert_by_expiry-All (λ v. u.expiry_ms ≤ℤ v.expiry_ms) t us (ground (arith, gt)) h.0,
            insert_by_expiry-IsSorted t us h.1,
          )
  ]

  sort_by_expiry-IsSorted : (ts : List (ExpiredTimer V)) → IsSorted (sort_by_expiry ts)
  unfolding sort_by_expiry
  sort_by_expiry-IsSorted [] = tt
  sort_by_expiry-IsSorted (t ∷ ts) =
      insert_by_expiry-IsSorted t (sort_by_expiry ts) (sort_by_expiry-IsSorted ts)

  sort_by_expiry-All :
      (P : ExpiredTimer V → Type 0) (ts : List (ExpiredTimer V))
      → All P ts
      → All P (sort_by_expiry ts)
  unfolding sort_by_expiry
  sort_by_expiry-All P [] h = tt
  sort_by_expiry-All P (t ∷ ts) h =
      insert_by_expiry-All P t (sort_by_expiry ts) h.0 (sort_by_expiry-All P ts h.1)

  insert_by_expiry-perm :
      (t : ExpiredTimer V) (us : List (ExpiredTimer V)) → Perm (insert_by_expiry t us) (t ∷ us)
  unfolding insert_by_expiry
  insert_by_expiry-perm t [] = Perm.refl (t ∷ [])
  insert_by_expiry-perm t (u ∷ us) = elim (Bool-cases (leb_ℤ t.expiry_ms u.expiry_ms)) [
    | inl le ↦ rw (le, insert_by_expiry) (Perm.refl (t ∷ u ∷ us))
    | inr gt ↦
        rw (gt, insert_by_expiry)
          (Perm.trans (Perm.cons u (insert_by_expiry-perm t us)) (Perm.swap t u us))
  ]

  sort_by_expiry-perm : (ts : List (ExpiredTimer V)) → Perm (sort_by_expiry ts) ts
  unfolding sort_by_expiry
  sort_by_expiry-perm [] = Perm.nil
  sort_by_expiry-perm (t ∷ ts) =
      Perm.trans (insert_by_expiry-perm t (sort_by_expiry ts))
        (Perm.cons t (sort_by_expiry-perm ts))

  -- The split, timer by timer.
  split_expired-sides :
      (now : ℤ) (ts : List (PendingTimer V))
      → All (IsDueAt now) (split_expired now ts).0 × All (IsAhead now) (split_expired now ts).1
  unfolding split_expired
  split_expired-sides now [] = (tt, tt)
  split_expired-sides now (t ∷ ts) = elim (Bool-cases (leb_ℤ t.expiry_ms now)) [
    | inl due ↦
        rw (due, split_expired)
          ((ground (arith, due), (split_expired-sides now ts).0), (split_expired-sides now ts).1)
    | inr ahead ↦
        rw (ahead, split_expired)
          ((split_expired-sides now ts).0, (ground (arith, ahead), (split_expired-sides now ts).1))
  ]

  split_expired-perm :
      (now : ℤ) (ts : List (PendingTimer V))
      → Perm ((split_expired now ts).0 ++ map fired (split_expired now ts).1) (map fired ts)
  unfolding split_expired
  split_expired-perm now [] = Perm.nil
  split_expired-perm now (t ∷ ts) = elim (Bool-cases (leb_ℤ t.expiry_ms now)) [
    | inl due ↦ rw (due, split_expired) (Perm.cons (fired t) (split_expired-perm now ts))
    | inr ahead ↦
        rw (ahead, split_expired)
          (Perm.trans (perm_middle (split_expired now ts).0 (map fired (split_expired now ts).1))
            (Perm.cons (fired t) (split_expired-perm now ts)))
  ]

  -- In each round every timer either fires or is kept, exactly once and with what was set: those fire
  -- whose time has come, in the order of their times, and those are kept whose time is ahead.
  pub expire_lem :
      (now : ℤ) (ts : List (PendingTimer V))
      → let (expired, kept) = expire now ts in
        IsSorted expired
        × All (IsDueAt now) expired
        × All (IsAhead now) kept
        × Perm (expired ++ map fired kept) (map fired ts)
  unfolding expire
  expire_lem now ts =
      let expired = (split_expired now ts).0 in
      (
        sort_by_expiry-IsSorted expired,
        sort_by_expiry-All (IsDueAt now) expired (split_expired-sides now ts).0,
        (split_expired-sides now ts).1,
        Perm.trans
            (Perm.append (sort_by_expiry-perm expired)
              (Perm.refl (map fired (split_expired now ts).1)))
            (split_expired-perm now ts),
      )
