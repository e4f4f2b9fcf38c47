-- ===== src/Triggers/Engine/Written.antt =====
-- What a recorded outcome of internal/service/triggers/engine.go adds to the table of firings.
use lexicode.Prelude.{
  ◌+◌, ◌≤◌, ◌≡◌, refl, Bool, true, false, ◌||◌, List, [], ◌∷◌, ◌++◌, ok, err, any, count_where,
  Bool-cases, inl, inr, ◌⊎◌, arith,
}
use lexicode.Domain.Words.{Key, Time}
use lexicode.Domain.Rows.{Event}
use lexicode.Store.Db.{StoreError}
use lexicode.Triggers.Template.{Warning}
use lexicode.Triggers.Firing.{
  Rule, Firing, FiringOutcome, emit_fired, write_firing, Pipeline, is_firing, create_firing,
  emit_firing, write_outcome, firing_of,
}

-- The tables after at most one more firing, of this trigger and event.
pub record Wrote (trigger event : Key) (m m' : Pipeline) : Type 0 where
  pub rules : m'.rules ≡ m.rules
  pub down : m'.down ≡ m.down
  pub firings :
      (m'.firings ≡ m.firings)
      ⊎ ((f : Firing) × (f.trigger_id ≡ trigger)
          × (f.event_id ≡ event)
          × (any (is_firing trigger event) m.firings ≡ false)
          × (m'.firings ≡ m.firings ++ f ∷ []))

pub any-append :
    {A : Type 0} (p : A → Bool) (xs ys : List A) → any p (xs ++ ys) ≡ (any p xs || any p ys)
unfolding any
any-append p [] ys = refl
any-append p (x ∷ xs) ys = ground (arith, any-append p xs ys)

count-append :
    {A : Type 0} (p : A → Bool) (xs ys : List A)
    → count_where p (xs ++ ys) ≡ count_where p xs + count_where p ys
unfolding count_where
count-append p [] ys = omega arith
count-append p (x ∷ xs) ys = ground (arith, count-append p xs ys)

count-none : {A : Type 0} (p : A → Bool) (xs : List A) → any p xs ≡ false → count_where p xs ≡ 0
unfolding any count_where
count-none p [] h = refl
count-none p (x ∷ xs) h = ground (arith, count-none p xs)

pub same-Wrote : (trigger event : Key) (m : Pipeline) → Wrote trigger event m m
same-Wrote trigger event m = record { rules = refl; down = refl; firings = inl refl }

emit_firing-firings : (m : Pipeline) (f : Firing) → (emit_firing m f).firings ≡ m.firings
unfolding emit_firing
emit_firing-firings m f = ground arith

emit_firing-Wrote :
    (trigger event : Key) (m m' : Pipeline) (f : Firing)
    → Wrote trigger event m m'
    → Wrote trigger event m (emit_firing m' f)
unfolding emit_firing
emit_firing-Wrote trigger event m m' f w = elim (Bool-cases (m'.down emit_fired)) [
  | inl e ↦ rw (e, emit_firing) w
  | inr e ↦ rw (e, emit_firing) (record { rules = w.rules; down = w.down; firings = w.firings })
]

-- A write fails, finds the pair recorded, or records it.
data Created (m : Pipeline) (f : Firing) : Type 0 where
  fails :
      m.down (write_firing f.trigger_id) ≡ true
      → create_firing m f ≡ (m, err StoreError.io)
      → Created m f
  found :
      any (is_firing f.trigger_id f.event_id) m.firings ≡ true
      → create_firing m f ≡ (m, ok false)
      → Created m f
  added :
      any (is_firing f.trigger_id f.event_id) m.firings ≡ false
      → create_firing m f ≡ (record m { firings = m.firings ++ f ∷ [] }, ok true)
      → Created m f

create_firing-cases : (m : Pipeline) (f : Firing) → Created m f
unfolding create_firing
create_firing-cases m f = elim (Bool-cases (m.down (write_firing f.trigger_id))) [
  | inl e ↦ fails e (rw (e, create_firing) refl)
  | inr up ↦ elim (Bool-cases (any (is_firing f.trigger_id f.event_id) m.firings)) [
    | inl e ↦ found e (rw (up, create_firing) (rw e refl))
    | inr e ↦ added e (rw (up, create_firing) (rw e refl))
  ]
]

module _ (id : Key) (now : Time) (tr : Rule) (ev : Event) (m : Pipeline) (res : FiringOutcome)
    (ws : List Warning) where
  pub write_outcome-Wrote : Wrote tr.id ev.id m (write_outcome id now tr ev m res ws)
  unfolding write_outcome
  write_outcome-Wrote = go (create_firing-cases m (firing_of id now tr ev res ws))
    where
      go :
          Created m (firing_of id now tr ev res ws)
          → Wrote tr.id ev.id m (write_outcome id now tr ev m res ws)
      go (fails d e) = rw (e, e, write_outcome) (same-Wrote tr.id ev.id m)
      go (found d e) = rw (e, e, write_outcome) (same-Wrote tr.id ev.id m)
      go (added d e) =
          rw (e, e, write_outcome)
            (emit_firing-Wrote tr.id ev.id m _ _
              (record { rules = refl; down = refl; firings = inr (_, refl, refl, d, refl) }))

  -- Afterwards the firing is there, if the write goes through.
  pub write_outcome-any :
      m.down (write_firing tr.id) ≡ false
      → any (is_firing tr.id ev.id) (write_outcome id now tr ev m res ws).firings ≡ true
  unfolding write_outcome
  write_outcome-any up = go (create_firing-cases m (firing_of id now tr ev res ws))
    where
      go :
          Created m (firing_of id now tr ev res ws)
          → any (is_firing tr.id ev.id) (write_outcome id now tr ev m res ws).firings ≡ true
      go (fails d e) = absurd (cc)
      go (found d e) = rw (e, e, write_outcome) d
      go (added d e) =
          rw (e, e, write_outcome)
            (rw (emit_firing-firings, any-append (is_firing tr.id ev.id) m.firings, d)
              (unfold any in ground arith))

-- The key is unique: no trigger has two firings of one event.
abbrev pub FiredOnce : Pipeline → Type 0
FiredOnce m = (trigger event : Key) → count_where (is_firing trigger event) m.firings ≤ 1

count-single : {A : Type 0} (p : A → Bool) (x : A) → count_where p (x ∷ []) ≤ 1
unfolding count_where
count-single p x = ground arith

count-other : {A : Type 0} (p : A → Bool) (x : A) → p x ≡ false → count_where p (x ∷ []) ≡ 0
unfolding count_where
count-other p x h = ground arith

pub Wrote-FiredOnce :
    (trigger event : Key) (m m' : Pipeline) → Wrote trigger event m m' → FiredOnce m → FiredOnce m'
Wrote-FiredOnce trigger event m m' w once t e = elim w.firings [
  | inl same ↦ rw same (once t e)
  | inr (f, by, of, fresh, grown) ↦
      rw (grown, count-append)
        (elim (Bool-cases (is_firing t e f)) [
          | inr other ↦ omega (arith, once t e, count-other (is_firing t e) f other)
          | inl hit ↦
              let by' : trigger ≡ t = ground arith in
              let of' : event ≡ e = ground arith in
              let none_yet : count_where (is_firing t e) m.firings ≡ 0 =
                count-none (is_firing t e) m.firings (rw (by', of') at fresh) in
              omega (arith, count-single (is_firing t e) f)
        ])
]
