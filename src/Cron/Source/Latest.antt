-- ===== src/Cron/Source/Latest.antt =====
-- `latestMatch` of internal/module/cron/source.go finds the latest minute of a schedule.
use lexicode.Prelude.{
  ℕ, zero, suc, ◌+◌, ◌-◌, ◌*◌, ◌≤◌, ◌<◌, ◌≡◌, subst, Bool, true, some, ltb, Bool-cases, inl, inr,
  arith,
}
use lexicode.Domain.Words.{Time}
use lexicode.Cron.Source.{minute_ms, later_of, search_back, latest_match}

module _ (hit : Time → Bool) (floor : Time) where
  search_back-hit :
      (f m : ℕ) {r : Time}
      → search_back f hit floor m ≡ some r
      → (hit r ≡ true) × (floor < r) × (r ≤ m) × ((j : ℕ) × (r + j * minute_ms ≡ m))
  unfolding search_back
  search_back-hit zero m h = absurd (cc)
  search_back-hit (suc f) m {r} h = elim (Bool-cases (ltb floor m)) [
    | inr e ↦ cc (rw e at h)
    | inl e ↦ elim (Bool-cases (hit m)) [
      | inl k ↦
          let same : m ≡ r = ground (arith, rw (e, k) at h) in
          (
            subst (λ (t : Time). hit t ≡ true) same k,
            ground (arith, same),
            omega arith,
            (0, omega arith),
          )
      | inr k ↦
          let (here, above, below, (j, on)) =
            search_back-hit f (m - minute_ms) {r = r} (rw (e, k) at h) in
          (here, above, omega arith, (suc j, omega arith))
    ]
  ]

  -- A minute that is hit, on the grid that `m` lies on, is found unless a later one is.
  search_back-finds :
      (f m x j : ℕ)
      → m < f
      → x + j * minute_ms ≡ m
      → floor < x
      → hit x ≡ true
      → (r : Time) × (search_back f hit floor m ≡ some r) × (x ≤ r)
  unfolding search_back
  search_back-finds zero m x j lt on above here = absurd (omega arith)
  search_back-finds (suc f) m x zero lt on above here =
      let same : x ≡ m = omega arith in
      let here' : hit m ≡ true = subst (λ (t : Time). hit t ≡ true) same here in
      (m, ground (arith, here', same), omega arith)
  search_back-finds (suc f) m x (suc j) lt on above here =
      let (r, found, le) =
        search_back-finds f (m - minute_ms) x j (omega arith) (omega arith) above here in
      elim (Bool-cases (hit m)) [
        | inl e ↦ (m, ground (arith, e), omega arith)
        | inr e ↦ (r, ground (arith, e, found), le)
      ]

-- The minute that a schedule fires for is the present one or lies whole minutes before it, lies after the
-- cursor and within the lookback, and matches the schedule. If some such minute matches, one is found that
-- is not earlier.
pub latest_match-greatest :
    (hit : Time → Bool) (since until : Time) (lookback : ℕ)
    → ((r : Time)
        → latest_match hit since until lookback ≡ some r
        → (hit r ≡ true)
          × (since < r)
          × (until - lookback < r)
          × (r ≤ until)
          × ((j : ℕ) × (r + j * minute_ms ≡ until)))
      × ((x j : ℕ)
          → x + j * minute_ms ≡ until
          → since < x
          → until - lookback < x
          → hit x ≡ true
          → (r : Time) × (latest_match hit since until lookback ≡ some r) × (x ≤ r))
unfolding latest_match
latest_match-greatest hit since until lookback =
    let floor = later_of (until - lookback) since in
    (
      λ r h.
          let (here, above, below, (j, on)) = search_back-hit hit floor (suc until) until h in
          (here, ground arith, ground arith, below, (j, on)),
      λ x j on after near here.
          search_back-finds hit floor (suc until) until x j (omega arith) on (ground arith) here,
    )
