-- ===== src/Runtime/Timers/Cancel.antt =====
-- Cancelling and setting timers in one call.
use stadhouder.Base.{
  ◌≡◌, refl, ap, ◌∙◌, Bool, not, List, [], ◌∷◌, ◌++◌, map, arith, Text, filter, any, if◌then◌else◌,
  text_eq, text_eq_iff,
}
use stadhouder.Service.{TimerRequest}
use stadhouder.Runtime.{PendingTimer}
use stadhouder.Runtime.Timers.{pending, reschedule}

filter-append :
    {A : Type 0} (p : A → Bool) (xs ys : List A) → filter p (xs ++ ys) ≡ filter p xs ++ filter p ys
filter-append p [] ys = refl
filter-append p (x ∷ xs) ys = ground (arith, filter-append p xs ys)

module _ {V : Type 0} where
  -- The timers of one id, in their order.
  abbrev pub with_id : Text → List (PendingTimer V) → List (PendingTimer V)
  with_id id = filter (λ t. text_eq t.timer_id id)

  abbrev pub requests_of : Text → List (TimerRequest V) → List (TimerRequest V)
  requests_of id = filter (λ t. text_eq t.timer_id id)

  with_id-pending :
      (id : Text) (rs : List (TimerRequest V))
      → with_id id (map pending rs) ≡ map pending (requests_of id rs)
  unfolding pending
  with_id-pending id [] = refl
  with_id-pending id (r ∷ rs) = ground (arith, with_id-pending id rs)

  with_id-cancelled :
      (id : Text) (cancelled : List Text) (ts : List (PendingTimer V))
      → with_id id (filter (λ t. not (any (text_eq t.timer_id) cancelled)) ts)
        ≡ (if any (text_eq id) cancelled then [] else with_id id ts)
  with_id-cancelled id cancelled [] = ground arith
  with_id-cancelled id cancelled (t ∷ ts) =
      ground (arith, text_eq_iff t.timer_id id, with_id-cancelled id cancelled ts)

  -- Of the timers of one id, a call of the engine leaves none that was set before if the call cancels
  -- the id, and all of them in their order if it does not; behind these stand those that the call
  -- sets, whether or not it also cancels the id.
  pub reschedule_lem :
      (id : Text) (cancelled : List Text) (requests : List (TimerRequest V))
      (ts : List (PendingTimer V))
      → with_id id (reschedule cancelled requests ts)
        ≡ (if any (text_eq id) cancelled then [] else with_id id ts)
          ++ map pending (requests_of id requests)
  unfolding reschedule
  reschedule_lem id [] requests ts =
      filter-append (λ t. text_eq t.timer_id id) ts (map pending requests)
      ∙ ap (λ ps. with_id id ts ++ ps) (with_id-pending id requests)
  reschedule_lem id (k ∷ ks) requests ts =
      filter-append (λ t. text_eq t.timer_id id)
        (filter (λ t. not (any (text_eq t.timer_id) (k ∷ ks))) ts) (map pending requests)
      ∙ rw (with_id-cancelled id (k ∷ ks) ts, with_id-pending id requests) refl
