-- ===== src/Runtime/Timers.antt =====
-- Lines 338 to 352 and 397 to 412 of runtime.rs: timers that fire, are cancelled and are set.
pub mod Laws
pub mod Cancel
use stadhouder.Base.{
  not, List, [], ◌∷◌, ◌++◌, map, Text, filter, is_empty, any, if◌then◌else◌, text_eq,
}
use stadhouder.Base.Int.{ℤ, leb_ℤ}
use stadhouder.Service.{ExpiredTimer, TimerRequest}
use stadhouder.Runtime.{PendingTimer}

module _ {V : Type 0} where
  unfoldable pub fired : PendingTimer V → ExpiredTimer V
  fired t = record { timer_id = t.timer_id; expiry_ms = t.expiry_ms; payload = t.payload }

  -- `retain`: the timers that fire, in their order, and those that stay.
  unfoldable pub split_expired :
      ℤ → List (PendingTimer V) → List (ExpiredTimer V) × List (PendingTimer V)
  unfolding fired
  split_expired now_ms [] = ([], [])
  split_expired now_ms (t ∷ ts) =
      let (expired, kept) = split_expired now_ms ts in
      if leb_ℤ t.expiry_ms now_ms then (fired t ∷ expired, kept) else (expired, t ∷ kept)

  unfoldable pub insert_by_expiry : ExpiredTimer V → List (ExpiredTimer V) → List (ExpiredTimer V)
  insert_by_expiry t [] = t ∷ []
  insert_by_expiry t (u ∷ us) =
      if leb_ℤ t.expiry_ms u.expiry_ms then t ∷ u ∷ us else u ∷ insert_by_expiry t us

  -- `sort_by_key(|t| t.expiry_ms)`, a stable sort.
  unfoldable pub sort_by_expiry : List (ExpiredTimer V) → List (ExpiredTimer V)
  unfolding insert_by_expiry
  sort_by_expiry [] = []
  sort_by_expiry (t ∷ ts) = insert_by_expiry t (sort_by_expiry ts)

  unfoldable pub expire : ℤ → List (PendingTimer V) → List (ExpiredTimer V) × List (PendingTimer V)
  unfolding split_expired sort_by_expiry
  expire now_ms ts = let (expired, kept) = split_expired now_ms ts in (sort_by_expiry expired, kept)

  unfoldable pub pending : TimerRequest V → PendingTimer V
  pending t = record { timer_id = t.timer_id; expiry_ms = t.expiry_ms; payload = t.payload }

  -- Cancellations come before the new timers.
  unfoldable pub reschedule :
      List Text → List (TimerRequest V) → List (PendingTimer V) → List (PendingTimer V)
  unfolding pending
  reschedule cancelled requests ts =
      (if is_empty cancelled then ts else filter (λ t. not (any (text_eq t.timer_id) cancelled)) ts)
      ++ map pending requests
