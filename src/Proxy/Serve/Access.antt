-- ===== src/Proxy/Serve/Access.antt =====
-- Which requests reach a host.
use lexicode.Prelude.{
  ℕ, Bool, true, false, List, [], ◌∷◌, Option, none, some, ◌≡◌, ◌≢◌, ◌↔◌, ◌⊎◌, refl, inl, inr,
  arith, Bool-cases, Option-cases, ◌∙◌, ap,
}
use lexicode.Domain.Words.{Key, Time}
use lexicode.Domain.Payload.{Text}
use lexicode.Proxy.Hosts.{normalize_host, match_host}
use lexicode.Proxy.Hosts.Laws.{same_text_iff, Permits, match_host_iff, or_iff}
use lexicode.Proxy.Registry.{
  NetworkMode, network_open, NetworkPolicy, Registration, Proxy, patterns_of, with_token,
  unregister, enroll, compiled, register, token_of, authenticate,
}
use lexicode.Proxy.Registry.Means.{Means, Some-member, patterns_of-Means}
use lexicode.Proxy.Registry.Sound.{IsSound, without_token-some}
use lexicode.Proxy.Serve.{
  Request, Answer, proxy_auth_required, tunnels, forwards, is_open, is_mcp, target, allows, decide,
  serve,
}

-- A host was dialed for the request.
abbrev pub is_dial : Answer → Bool
is_dial (tunnels host port) = true
is_dial (forwards host) = true
is_dial _ = false

open_iff : (mode : NetworkMode) → (is_open mode ≡ true) ↔ (mode ≡ network_open)
open_iff mode = (λ e. ground arith, λ e. ground arith)

module _ (to_lower : ℕ → ℕ) (split_host_port : Text → Option (Text × Text)) (now : Time) where
  decide-is_dial :
      (p : Proxy) (r : Request) (reg : Registration) (c : ℕ) (host port : Text)
      → is_dial (decide to_lower split_host_port now p r reg (c ∷ host, port)).1
        ≡ allows to_lower split_host_port reg (c ∷ host)
  unfolding decide
  decide-is_dial p r reg c host port = ground arith

  -- What is served to a credential that the proxy knows.
  serve-known :
      (p : Proxy) (r : Request) (reg : Registration) (hostport : Text × Text)
      → is_mcp to_lower split_host_port p r ≡ false
      → authenticate p r.basic ≡ some reg
      → target to_lower split_host_port r ≡ some hostport
      → serve to_lower split_host_port now p r
        ≡ decide to_lower split_host_port now p r reg hostport
  unfolding serve
  serve-known p r reg hostport plain known aimed = rw (plain, known, serve) (rw (aimed, serve))

  serve-unknown :
      (p : Proxy) (r : Request)
      → is_mcp to_lower split_host_port p r ≡ false
      → authenticate p r.basic ≡ none
      → (serve to_lower split_host_port now p r).1 ≡ proxy_auth_required
  unfolding serve
  serve-unknown p r plain known = rw (plain, known, serve)

  register-authenticate :
      (p : Proxy) (run : Key) (token : Text) (policy : NetworkPolicy) (git_hosts : List Text)
      (basic : Option Text)
      → token_of basic ≡ some token
      → authenticate (register to_lower run token policy git_hosts p) basic
        ≡ some (compiled to_lower run token policy git_hosts)
  unfolding authenticate register enroll with_token compiled
  register-authenticate p run token policy git_hosts basic known =
      rw (known, authenticate) (rw ((same_text_iff token token).1 refl))

  -- A request that names a host, is not one for the MCP server and carries the credential of a run that has
  -- just been registered reaches the host exactly if the policy is open, or the host is not blank and
  -- permitted by a pattern: one of the model's hosts, one of the hosts of the repository, or, under an
  -- allowlist only, one of the list.
  pub serve-register :
      (p : Proxy) (run : Key) (token : Text) (policy : NetworkPolicy) (git_hosts : List Text)
      (r : Request) (c : ℕ) (host port : Text)
      → is_mcp to_lower split_host_port p r ≡ false
      → token_of r.basic ≡ some token
      → target to_lower split_host_port r ≡ some (c ∷ host, port)
      → (is_dial
            (serve to_lower split_host_port now
              (register to_lower run token policy git_hosts p)
              r).1
          ≡ true)
        ↔ ((policy.mode ≡ network_open)
            ⊎ (normalize_host to_lower (c ∷ host) ≢ []
                × ((pattern : Text) × Means policy git_hosts pattern
                    × Permits
                        (normalize_host to_lower pattern)
                        (normalize_host to_lower (c ∷ host)))))
  unfolding allows compiled match_host
  serve-register p run token policy git_hosts r c host port plain known aimed =
      let p' = register to_lower run token policy git_hosts p in
      let reg = compiled to_lower run token policy git_hosts in
      let answer : is_dial (serve to_lower split_host_port now p' r).1
          ≡ allows to_lower split_host_port reg (c ∷ host) =
        ap (λ (x : Proxy × Answer). is_dial x.1)
          (serve-known p' r reg (c ∷ host, port) (unfold is_mcp register enroll in plain)
            (register-authenticate p run token policy git_hosts r.basic known) aimed)
        ∙ decide-is_dial p' r reg c host port in
      let P : Text → Type 0 = λ (pattern : Text).
        Permits (normalize_host to_lower pattern) (normalize_host to_lower (c ∷ host)) in
      let spelled = Some-member P (patterns_of policy git_hosts) in
      let matched = match_host_iff to_lower (patterns_of policy git_hosts) (c ∷ host) in
      rw answer (
        or_iff (is_open policy.mode) (match_host to_lower reg.allow (c ∷ host))
          (open_iff policy.mode)
          (
            λ e.
                let (ink, some_pattern) = matched.0 e in
                let (pattern, there, permits) = spelled.0 some_pattern in
                (ink, (pattern, (patterns_of-Means policy git_hosts pattern).0 there, permits)),
            λ (ink, (pattern, means, permits)). matched.1 (
              ink,
              spelled.1 (pattern, (patterns_of-Means policy git_hosts pattern).1 means, permits),
            ),
          ))

  -- A request that reaches a host carries the credential of a registration.
  serve-authentic :
      (p : Proxy) (r : Request)
      → is_dial (serve to_lower split_host_port now p r).1 ≡ true
      → (reg : Registration) × (authenticate p r.basic ≡ some reg)
  unfolding serve
  serve-authentic p r dialed = elim (Option-cases (authenticate p r.basic)) [
    | inr known ↦ known
    | inl unknown ↦ elim (Bool-cases (is_mcp to_lower split_host_port p r)) [
      | inl e ↦ absurd (cc (rw (e, serve) at dialed))
      | inr e ↦ absurd (cc (rw (e, unknown, serve) at dialed))
    ]
  ]

  -- Once a run is unregistered, no request reaches a host for it: where the maps of the proxy agree,
  -- each that does carries the credential of another run, which the proxy knew before.
  pub serve-unregister :
      (p : Proxy) (run : Key) (r : Request)
      → IsSound p
      → is_dial (serve to_lower split_host_port now (unregister run p) r).1 ≡ true
      → (reg : Registration) × (authenticate p r.basic ≡ some reg) × (reg.run_id ≢ run)
  unfolding unregister authenticate
  serve-unregister p run r sound dialed =
      let (reg, known) = serve-authentic (unregister run p) r dialed in
      elim (Option-cases (token_of r.basic)) [
        | inl e ↦ absurd (cc (rw (e, authenticate) at known))
        | inr (token, e) ↦
            let (before, other) =
              without_token-some p sound run token reg (rw (e, authenticate) at known) in
            (reg, rw (e, authenticate) before, other)
      ]
