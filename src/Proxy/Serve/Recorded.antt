-- ===== src/Proxy/Serve/Recorded.antt =====
-- What becomes of the decisions of the proxy.
use lexicode.Prelude.{
  ℕ, ◌+◌, Bool, true, false, ◌==◌, List, [], ◌∷◌, ◌++◌, Option, none, some, ◌≡◌, refl, inl, inr,
  if◌then◌else◌, arith, Bool-cases, ◌∙◌, sum_where, count_where,
}
use lexicode.Domain.Words.{Key, Time}
use lexicode.Domain.Payload.{Text}
use lexicode.Proxy.Hosts.Laws.{same_text_iff}
use lexicode.Proxy.Registry.{Registration, DecisionState, DecisionRow, Proxy, unregister, enroll}
use lexicode.Proxy.Serve.{
  is_repeat, suppressed_of, repeated, same_key, set_recent, decision_row, log_decision,
}

pub record Decision : Type 0 where
  pub at : Time
  pub reg : Registration
  pub host : Text
  pub allowed : Bool

-- What happens to the proxy.
pub data Act : Type 0 where
  decides : Decision → Act
  registers : Registration → Act
  leaves : (run : Key) → Act

unfoldable pub act : Act → Proxy → Proxy
unfolding log_decision enroll unregister
act (decides d) p = log_decision d.at d.reg d.host d.allowed p
act (registers reg) p = enroll reg p
act (leaves run) p = unregister run p

unfoldable pub acts : List Act → Proxy → Proxy
unfolding act
acts [] p = p
acts (a ∷ rest_acts) p = acts rest_acts (act a p)

module _ (run : Key) (host : Text) (allowed : Bool) where
  abbrev pub is_about : Decision → Bool
  is_about d = same_key run d.reg.run_id host d.host allowed d.allowed

  abbrev pub is_row_about : DecisionRow → Bool
  is_row_about row = same_key run row.run_id host row.host allowed row.allowed

  -- The decisions that the rows about a run, a host and an outcome tell of, themselves and their repeats.
  abbrev pub told : List DecisionRow → ℕ
  told rows = sum_where is_row_about (λ row. row.suppressed_repeats + 1) rows

  -- Those, and the ones that wait for the next row.
  abbrev pub accounted : Proxy → ℕ
  accounted p = told p.rows + suppressed_of (p.recent run host allowed)

  told-append :
      (rows : List DecisionRow) (row : DecisionRow)
      → told (rows ++ row ∷ [])
        ≡ told rows + (if is_row_about row then row.suppressed_repeats + 1 else 0)
  unfolding sum_where
  told-append [] row = ground arith
  told-append (r ∷ rows) row = ground (arith, told-append rows row)

  repeated-suppressed :
      (window now : Time) (st : Option DecisionState)
      → is_repeat window now st ≡ true
      → suppressed_of (repeated st) ≡ suppressed_of st + 1
  repeated-suppressed window now none h = absurd (cc)
  repeated-suppressed window now (some st) h = refl

  -- The entry of a decision about this key is the one of the key.
  entry :
      (d : Decision) (p : Proxy)
      → is_about d ≡ true
      → p.recent d.reg.run_id d.host d.allowed ≡ p.recent run host allowed
  unfolding same_key
  entry d p about =
      let id : run ≡ d.reg.run_id = ground (arith, same_text_iff host d.host) in
      let name : host ≡ d.host = ground (arith, same_text_iff host d.host) in
      let way : allowed ≡ d.allowed = ground (arith, same_text_iff host d.host) in cc

  log_decision-accounted :
      (d : Decision) (p : Proxy)
      → p.records ≡ true
      → accounted (log_decision d.at d.reg d.host d.allowed p)
        ≡ accounted p + (if is_about d then 1 else 0)
  unfolding log_decision set_recent
  log_decision-accounted d p up = elim (Bool-cases (is_about d)) [
    | inr other ↦
        elim (Bool-cases (is_repeat p.window d.at (p.recent d.reg.run_id d.host d.allowed))) [
          | inl again ↦ rw (again, other) (omega arith)
          | inr first ↦
              rw (first, other, up)
                (rw
                  (
                    told-append p.rows (
                        decision_row d.at d.reg d.host d.allowed
                          (p.recent d.reg.run_id d.host d.allowed)),
                    other,
                  )
                  (omega arith))
        ]
    | inl about ↦
        rw (entry d p about)
          (elim (Bool-cases (is_repeat p.window d.at (p.recent run host allowed))) [
            | inl again ↦
                rw
                  (
                    again,
                    about,
                    repeated-suppressed p.window d.at (p.recent run host allowed) again,
                  )
                  (omega arith)
            | inr first ↦
                rw
                  (
                    first,
                    about,
                    up,
                    told-append p.rows
                        (decision_row d.at d.reg d.host d.allowed (p.recent run host allowed)),
                    about,
                  )
                  (omega arith)
          ])
  ]

  log_decision-records :
      (d : Decision) (p : Proxy) → (log_decision d.at d.reg d.host d.allowed p).records ≡ p.records
  unfolding log_decision
  log_decision-records d p = ground arith

  unregister-accounted :
      (r : Key) (p : Proxy)
      → accounted (unregister r p)
          + (if run == r then suppressed_of (p.recent run host allowed) else 0)
        ≡ accounted p
  unfolding unregister
  unregister-accounted r p = elim (Bool-cases (run == r)) [
    | inl e ↦ rw e (omega arith)
    | inr e ↦ rw e (omega arith)
  ]

  act-records : (a : Act) (p : Proxy) → (act a p).records ≡ p.records
  unfolding act unregister enroll
  act-records (decides d) p = log_decision-records d p
  act-records (registers reg) p = refl
  act-records (leaves r) p = refl

  abbrev pub act_is_about : Act → Bool
  act_is_about (decides d) = is_about d
  act_is_about _ = false

  -- The repeats that wait for the next row when their run is unregistered.
  unfoldable pub dropped : List Act → Proxy → ℕ
  unfolding acts
  dropped [] p = 0
  dropped (a ∷ rest_acts) p =
      (elim a [
        | leaves r ↦ if run == r then suppressed_of (p.recent run host allowed) else 0
        | _ ↦ 0
      ])
      + dropped rest_acts (act a p)

  act-accounted :
      (a : Act) (p : Proxy)
      → p.records ≡ true
      → accounted (act a p) + (elim a [
        | leaves r ↦ if run == r then suppressed_of (p.recent run host allowed) else 0
        | _ ↦ 0
      ])
        ≡ accounted p + (if act_is_about a then 1 else 0)
  unfolding act enroll
  act-accounted (decides d) p up = omega (arith, log_decision-accounted d p up)
  act-accounted (registers reg) p up = omega arith
  act-accounted (leaves r) p up = omega (arith, unregister-accounted r p)

  -- While its appends go through, each decision of the proxy about a run, a host and an outcome is a row of the
  -- transcript, or is counted in a row as a repeat, or waits to be counted in the next such row, or waited when
  -- its run was unregistered and is dropped: whatever runs are registered and unregistered in between.
  pub acts-accounted :
      (rest_acts : List Act) (p : Proxy)
      → p.records ≡ true
      → accounted (acts rest_acts p) + dropped rest_acts p
        ≡ accounted p + count_where act_is_about rest_acts
  unfolding acts dropped count_where
  acts-accounted [] p up = omega arith
  acts-accounted (a ∷ rest_acts) p up =
      let rest = acts-accounted rest_acts (act a p) (act-records a p ∙ up) in
      ground (arith, rest, act-accounted a p up)
