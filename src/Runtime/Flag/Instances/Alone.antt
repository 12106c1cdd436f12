-- ===== src/Runtime/Flag/Instances/Alone.antt =====
-- At most one instance of the service runs over a directory, whatever order of starts and rounds.
use mathlib.Core.Path.{subst}
use stadhouder.Base.{
  ℕ, ◌≤◌, ◌≡◌, refl, ap, sym, ◌∙◌, inl, inr, ◌⊎◌, Option, List, [], ◌∷◌, ◌++◌, arith, length, ok,
}
use stadhouder.Base.Int.{ℤ, pos, ◌+ℤ◌, ◌≤ℤ◌, +ℤ_parts, IsTime}
use stadhouder.Json.{Json}
use stadhouder.Float.{Float}
use stadhouder.Disk.{Disk}
use stadhouder.State.{Serde, RoundTrips}
use stadhouder.Pipes.Server.{Fifos}
use stadhouder.Service.{Engine}
use stadhouder.Runtime.{Loop, flag_stale_ms, flag_update_interval_ms}
use stadhouder.Runtime.Round.{Os, Exit, again, finished, failed, round}
use stadhouder.Runtime.Start.{Start, deferred, aborted, live, start}
use stadhouder.Runtime.Start.Laws.{defers_iff}
use stadhouder.Runtime.Flag.{
  KeepsFlag, KeepsFlag-refl, KeepsFlag-trans, read_service_flag-KeepsFlag,
}
use stadhouder.Runtime.Flag.Rounds.{Fresh, round-Fresh}
use stadhouder.Runtime.Flag.Singleton.{start-Fresh, le_trans}
use stadhouder.Runtime.Flag.Instances.{
  System, begun, ran, Step, begin, run, change, pass, Reach, here, next,
}

-- One instance whose flag stands in the directory.
record Alone {V F S : Type 0} (s : Serde F) (y : System V F S) : Type 0 where
  loop : Loop V F S
  last : ℤ
  runs : y.running ≡ (loop, last) ∷ []
  fresh : Fresh s last loop
  time : IsTime last
  past : last ≤ℤ y.clock
  young : y.clock ≤ℤ last +ℤ pos 100000
  flag : KeepsFlag loop.disk y.disk

record Inv {V F S : Type 0} (s : Serde F) (y : System V F S) : Type 0 where
  time : IsTime y.clock
  most_one : (y.running ≡ []) ⊎ Alone s y

none_among : {A B : Type 0} (before after : List A) (x : A) → before ++ x ∷ after ≡ [] → B
none_among [] after x h = cc
none_among (b ∷ before) after x h = cc

only_one :
    {A : Type 0} (before after : List A) (x y : A)
    → before ++ x ∷ after ≡ y ∷ []
    → (before ≡ []) × (after ≡ []) × (x ≡ y)
only_one [] after x y h = (refl, cc h, cc h)
only_one (b ∷ []) after x y h = cc
only_one (b ∷ c ∷ before) after x y h = cc

module _ {V F S : Type 0} (j : Json V) (f : Float F) (s : Serde F) (limit : Option ℕ)
    (e : Engine V F S) (rt : RoundTrips s) where
  begun-first :
      (memory : Option ℕ) (t : S) (fifos : Fifos) (y : System V F S) (r : Start V F S)
      → IsTime y.clock
      → y.running ≡ []
      → start f s limit e (ok y.clock) memory t y.disk fifos ≡ r
      → Inv s (begun r y)
  begun-first memory t fifos y (live l) k h started = record {
    time = k;
    most_one = inr (record {
      loop = l;
      last = y.clock;
      runs = ap (λ rs. (l, y.clock) ∷ rs) h;
      fresh = start-Fresh f s limit e rt y.clock memory t y.disk fifos l k started;
      time = k;
      past = omega arith;
      young = omega (arith, +ℤ_parts y.clock (pos 100000));
      flag = KeepsFlag-refl l.disk;
    });
  }
  begun-first memory t fifos y (deferred t' d) k h started = record { time = k; most_one = inl h }
  begun-first memory t fifos y (aborted m t' d) k h started = record { time = k; most_one = inl h }

  begun-second :
      (memory : Option ℕ) (t : S) (fifos : Fifos) (y : System V F S)
      → IsTime y.clock
      → Alone s y
      → start f s limit e (ok y.clock) memory t y.disk fifos ≡ deferred t y.disk
  begun-second memory t fifos y k a =
      let l = a.loop in
      (defers_iff f s limit e y.clock l.flag_updated_ms a.fresh.reads.0 memory t y.disk fifos k
          a.fresh.time (read_service_flag-KeepsFlag s l.disk y.disk a.flag ∙ a.fresh.reads.1)).1
        (
          le_trans _ a.last y.clock a.fresh.past a.past,
          omega (
            arith,
            a.fresh.young,
            a.young,
            +ℤ_parts a.last (pos 100000),
            +ℤ_parts l.flag_updated_ms (pos flag_update_interval_ms),
            +ℤ_parts l.flag_updated_ms (pos flag_stale_ms),
          ),
        )

  ran-Inv :
      {A : Type 0} (y : System V F S) (x : Exit × A × Loop V F S)
      → IsTime y.clock
      → (x.0 ≡ again → Fresh s y.clock x.2)
      → Inv s (ran [] [] x y)
  ran-Inv y (again, sent, l) k fresh = record {
    time = k;
    most_one = inr (record {
      loop = l;
      last = y.clock;
      runs = refl;
      fresh = fresh refl;
      time = k;
      past = omega arith;
      young = omega (arith, +ℤ_parts y.clock (pos 100000));
      flag = KeepsFlag-refl l.disk;
    });
  }
  ran-Inv y (finished, sent, l) k fresh = record { time = k; most_one = inl refl }
  ran-Inv y (failed m, sent, l) k fresh = record { time = k; most_one = inl refl }

  run-Inv :
      (y : System V F S) (before after : List (Loop V F S × ℤ)) (l : Loop V F S) (t : ℤ) (os : Os)
      → y.running ≡ before ++ (l, t) ∷ after
      → os.now ≡ ok y.clock
      → IsTime y.clock
      → Alone s y
      → Inv s (ran before after (round j f s limit e (record os { others = λ d. y.disk }) l) y)
  run-Inv y before after l t os runs told k a =
      let (none_before, none_after, same) =
        only_one before after (l, t) (a.loop, a.last) (sym runs ∙ a.runs) in
      let its : a.loop ≡ l = ap (λ r. r.0) (sym same) in
      let os' : Os = record os { others = λ d. y.disk } in
      let fresh : (round j f s limit e os' a.loop).0 ≡ again
          → Fresh s y.clock (round j f s limit e os' a.loop).2 =
        round-Fresh s rt f limit j e y.clock os' a.loop k a.fresh.time
          (le_trans _ a.last y.clock a.fresh.past a.past) a.fresh.reads a.flag told in
      rw (none_before, none_after)
        (subst (λ x. Inv s (ran [] [] (round j f s limit e os' x) y)) its
          (ran-Inv y (round j f s limit e os' a.loop) k fresh))

  Alone-moves :
      (y z : System V F S) (a : Alone s y)
      → z.running ≡ y.running
      → y.clock ≤ℤ z.clock
      → z.clock ≤ℤ a.last +ℤ pos 100000
      → KeepsFlag y.disk z.disk
      → Alone s z
  Alone-moves y z a same forward near keeps = record {
    loop = a.loop;
    last = a.last;
    runs = same ∙ a.runs;
    fresh = a.fresh;
    time = a.time;
    past = le_trans _ y.clock z.clock a.past forward;
    young = near;
    flag = KeepsFlag-trans a.flag keeps;
  }

  Step-Inv : {y z : System V F S} → Step j f s limit e y z → Inv s y → Inv s z
  Step-Inv (begin y memory t fifos) h = elim h.most_one [
    | inl none_yet ↦ begun-first memory t fifos y _ h.time none_yet refl
    | inr a ↦
        rw (begun-second memory t fifos y h.time a) (record { time = h.time; most_one = inr a })
  ]
  Step-Inv (run y before after l t os runs told) h = elim h.most_one [
    | inl none_yet ↦ none_among before after (l, t) (sym runs ∙ none_yet)
    | inr a ↦ run-Inv y before after l t os runs told h.time a
  ]
  Step-Inv (change y d keeps) h = elim h.most_one [
    | inl none_yet ↦ record { time = h.time; most_one = inl none_yet }
    | inr a ↦ record {
      time = h.time;
      most_one = inr (Alone-moves y _ a refl (omega arith) a.young keeps);
    }
  ]
  Step-Inv (pass y later k forward near) h = elim h.most_one [
    | inl none_yet ↦ record { time = k; most_one = inl none_yet }
    | inr a ↦ record {
      time = k;
      most_one = inr (Alone-moves y _ a refl forward (rw a.runs at near).0 (KeepsFlag-refl y.disk));
    }
  ]

  Reach-Inv :
      {d : Disk} {now : ℤ} {y : System V F S} → IsTime now → Reach j f s limit e d now y → Inv s y
  Reach-Inv h here = record { time = h; most_one = inl refl }
  Reach-Inv h (next r st) = Step-Inv st (Reach-Inv h r)

  -- From any directory, in whatever order instances are started, do rounds and end, each start and each
  -- round being one step, and other processes change what is not the flag: as long as the clock does not
  -- go back, and no running instance is without a round for more than 100 seconds, at most one instance
  -- runs, and while one runs every start leaves the field and the directory to it.
  pub one_lives :
      {d : Disk} {now : ℤ} {y : System V F S} (memory : Option ℕ) (t : S) (fifos : Fifos)
      → IsTime now
      → Reach j f s limit e d now y
      → (length y.running ≤ 1)
        × ((y.running ≡ [])
            ⊎ (start f s limit e (ok y.clock) memory t y.disk fifos ≡ deferred t y.disk))
  one_lives {y} memory t fifos h r =
      let i = Reach-Inv h r in
      elim i.most_one [
        | inl none_yet ↦ (rw none_yet (omega arith), inl none_yet)
        | inr a ↦ (rw a.runs (omega arith), inr (begun-second memory t fifos y i.time a))
      ]
