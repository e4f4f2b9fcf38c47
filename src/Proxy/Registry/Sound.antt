-- ===== src/Proxy/Registry/Sound.antt =====
-- The two maps of the proxy agree: a token is good exactly while it is the credential of its run.
use lexicode.Prelude.{
  Option, none, some, ◌==◌, ==_iff, ◌≡◌, ◌≢◌, refl, arith, Bool-cases, Option-cases, inl, inr, sym,
  ◌∙◌, ap, subst,
}
use lexicode.Domain.Words.{Key}
use lexicode.Domain.Payload.{Text, same_text}
use lexicode.Proxy.Hosts.Laws.{same_text_iff}
use lexicode.Proxy.Registry.{
  Registration, Proxy, without_token, with_token, at_run, unregister, enroll,
}

pub record IsSound (p : Proxy) : Type 0 where
  pub tokens :
      (t : Text) (reg : Registration)
      → p.by_token t ≡ some reg
      → (reg.token ≡ t) × (p.by_run reg.run_id ≡ some reg)
  pub runs :
      (r : Key) (reg : Registration)
      → p.by_run r ≡ some reg
      → (reg.run_id ≡ r) × (p.by_token reg.token ≡ some reg)

module _ (run : Key) (entry : Option Registration) (m : Key → Option Registration) where
  at_run_self : at_run run entry m run ≡ entry
  unfolding at_run
  at_run_self = ground (arith, ==_iff run run)

  at_run_other : (r : Key) → r ≢ run → at_run run entry m r ≡ m r
  unfolding at_run
  at_run_other r other = elim (Bool-cases (r == run)) [
    | inl e ↦ absurd (other ((==_iff r run).0 e))
    | inr e ↦ rw e
  ]

-- A map without the token of a run's entry has the other tokens, and no other entry than before.
module _ (p : Proxy) (sound : IsSound p) (run : Key) where
  pub without_token-some :
      (t : Text) (reg : Registration)
      → without_token (p.by_run run) p.by_token t ≡ some reg
      → (p.by_token t ≡ some reg) × (reg.run_id ≢ run)
  unfolding without_token
  without_token-some t reg h = elim (Option-cases (p.by_run run)) [
    | inl e ↦
        let kept : p.by_token t ≡ some reg = rw (e, without_token) at h in
        (kept, λ same. ground (arith, sound.tokens t reg kept))
    | inr (old, e) ↦ elim (Bool-cases (same_text t old.token)) [
      | inl gone ↦ absurd (cc (rw (gone) at (rw (e, without_token) at h)))
      | inr other ↦
          let kept : p.by_token t ≡ some reg = rw (other) at (rw (e, without_token) at h) in
          (
            kept,
            λ same.
                let mine : p.by_run run ≡ some reg =
                  ap p.by_run (sym same) ∙ (sound.tokens t reg kept).1 in
                let old_one : old ≡ reg = cc in
                let token : t ≡ old.token =
                  sym
                    ((ap (λ (r : Registration). r.token) old_one) ∙ (sound.tokens t reg kept).0) in
                absurd (cc ((same_text_iff t old.token).1 token)),
          )
    ]
  ]

  without_token-other :
      (r : Key) (reg : Registration)
      → p.by_run r ≡ some reg
      → r ≢ run
      → without_token (p.by_run run) p.by_token reg.token ≡ some reg
  unfolding without_token
  without_token-other r reg h other = elim (Option-cases (p.by_run run)) [
    | inl e ↦ rw (e, without_token) (sound.runs r reg h).1
    | inr (old, e) ↦ elim (Bool-cases (same_text reg.token old.token)) [
      | inr different ↦ rw (e, without_token) (rw different (sound.runs r reg h).1)
      | inl same ↦
          let token : reg.token ≡ old.token = (same_text_iff reg.token old.token).0 same in
          let held : p.by_token reg.token ≡ some old =
            ap p.by_token token ∙ (sound.runs run old e).1 in
          let one : old ≡ reg = cc (held, (sound.runs r reg h).1) in
          absurd (
            other (
              sym (sound.runs r reg h).0
              ∙ (sym (ap (λ (x : Registration). x.run_id) one) ∙ (sound.runs run old e).0)))
    ]
  ]

-- A run that is unregistered takes its token along, and no other.
pub unregister-IsSound : (p : Proxy) (run : Key) → IsSound p → IsSound (unregister run p)
unfolding unregister at_run
unregister-IsSound p run sound = record {
  tokens = λ t reg h.
      let (kept, other) = without_token-some p sound run t reg h in
      (
        (sound.tokens t reg kept).0,
        at_run_other run none p.by_run reg.run_id other ∙ (sound.tokens t reg kept).1,
      );
  runs = λ r reg h. elim (Bool-cases (r == run)) [
    | inl e ↦ absurd (cc (rw e at h))
    | inr e ↦
        let before : p.by_run r ≡ some reg = rw e at h in
        (
          (sound.runs r reg before).0,
          without_token-other p sound run r reg before (λ same. cc ((==_iff r run).1 same)),
        )
  ];
}

-- If the two maps of the proxy agree, each token being the credential of the run that it leads to, they
-- agree after a registration too, which replaces the one that the run had, if no other run has the new token.
pub enroll-IsSound :
    (p : Proxy) (reg : Registration)
    → ((other : Registration) → p.by_token reg.token ≡ some other → other.run_id ≡ reg.run_id)
    → IsSound p
    → IsSound (enroll reg p)
unfolding enroll at_run with_token
enroll-IsSound p new fresh sound = record {
  tokens = λ t reg h. elim (Bool-cases (same_text t new.token)) [
    | inl e ↦
        let mine : new ≡ reg = cc (rw e at h) in
        (
          sym ((same_text_iff t new.token).0 e ∙ ap (λ (x : Registration). x.token) mine),
          subst (λ (x : Registration). at_run new.run_id (some new) p.by_run x.run_id ≡ some x) mine
              (at_run_self new.run_id (some new) p.by_run),
        )
    | inr e ↦
        let (kept, other) = without_token-some p sound new.run_id t reg (rw e at h) in
        (
          (sound.tokens t reg kept).0,
          at_run_other new.run_id (some new) p.by_run reg.run_id other
              ∙ (sound.tokens t reg kept).1,
        )
  ];
  runs = λ r reg h. elim (Bool-cases (r == new.run_id)) [
    | inl e ↦
        let mine : new ≡ reg = cc (rw e at h) in
        subst
          (λ (x : Registration).
            (x.run_id ≡ r)
            × (with_token new (without_token (p.by_run new.run_id) p.by_token) x.token ≡ some x))
          mine (sym ((==_iff r new.run_id).0 e), rw ((same_text_iff new.token new.token).1 refl))
    | inr e ↦
        let before : p.by_run r ≡ some reg = rw e at h in
        let (id, held) = sound.runs r reg before in
        let other : r ≢ new.run_id = λ same. cc ((==_iff r new.run_id).1 same) in
        (
          id,
          elim (Bool-cases (same_text reg.token new.token)) [
            | inr f ↦ rw f (without_token-other p sound new.run_id r reg before other)
            | inl f ↦
                let at_new : p.by_token new.token ≡ some reg =
                  ap p.by_token (sym ((same_text_iff reg.token new.token).0 f)) ∙ held in
                absurd (other (sym id ∙ fresh reg at_new))
          ],
        )
  ];
}
