-- ===== src/Proxy/Serve.antt =====
-- internal/module/docker/proxy.go: what the proxy does with a request, and the record of its decisions.
pub mod Access
pub mod Recorded
use lexicode.Prelude.{
  ℕ, ◌+◌, ◌-◌, Bool, true, false, not, ◌&&◌, ◌||◌, List, [], ◌∷◌, ◌++◌, Option, none, some, ◌==◌,
  if◌then◌else◌, any, ltb,
}
use lexicode.Domain.Words.{Key, Time}
use lexicode.Domain.Payload.{Text, codes, same_text}
use lexicode.Guard.SkipToken.{has_prefix}
use lexicode.Proxy.Hosts.{normalize_host, match_host, has_suffix}
use lexicode.Proxy.Registry.{
  NetworkMode, network_open, Registration, DecisionState, DecisionRow, Proxy, authenticate,
}

-- A request: the host of a CONNECT, the host of the URL if that is absolute, its path, and the decoded
-- credential.
pub record Request : Type 0 where
  pub is_connect : Bool
  pub host : Text
  pub url_host : Option Text
  pub path : Text
  pub basic : Option Text

-- What becomes of a request; the texts of the refusals are left out.
pub data Answer : Type 0 where
  served_mcp proxy_auth_required bad_request : Answer
  forbidden : (host : Text) → Answer
  tunnels : (host port : Text) → Answer
  forwards : (host : Text) → Answer

abbrev pub mcp_hosts : List Text
mcp_hosts =
    codes "lexicode-egress"
    ∷ codes "host.docker.internal"
    ∷ codes "localhost"
    ∷ codes "127.0.0.1"
    ∷ []

-- `logDecision`: whether the decision falls into the window of an earlier one.
abbrev pub is_repeat : (window : Time) (now : Time) → Option DecisionState → Bool
is_repeat window now none = false
is_repeat window now (some st) = ltb (now - st.at) window

abbrev pub suppressed_of : Option DecisionState → ℕ
suppressed_of none = 0
suppressed_of (some st) = st.suppressed

abbrev pub repeated : Option DecisionState → Option DecisionState
repeated none = none
repeated (some st) = some (record st { suppressed = st.suppressed + 1 })

-- The keys of `recent` are a run, a host and an outcome.
unfoldable pub same_key : (run other : Key) (host host' : Text) (allowed allowed' : Bool) → Bool
unfolding same_text
same_key run other host host' allowed allowed' =
    run == other && (same_text host host' && (if allowed then allowed' else not allowed'))

unfoldable pub set_recent :
    Key
    → Text
    → Bool
    → Option DecisionState
    → (Key → Text → Bool → Option DecisionState)
    → Key
    → Text
    → Bool
    → Option DecisionState
unfolding same_key
set_recent run host allowed st m r h a = if same_key r run h host a allowed then st else m r h a

-- The activity of a decision, with the repeats that it closes.
abbrev pub decision_row :
    (now : Time)
    → Registration
    → (host : Text) (allowed : Bool) → Option DecisionState
    → DecisionRow
decision_row now reg host allowed st = record {
  run_id = reg.run_id;
  host = host;
  allowed = allowed;
  mode = reg.mode;
  suppressed_repeats = suppressed_of st;
  created_at = now;
}

-- `logDecision`
unfoldable pub log_decision :
    (now : Time) → Registration → (host : Text) (allowed : Bool) → Proxy → Proxy
unfolding set_recent
log_decision now reg host allowed p =
    let st = p.recent reg.run_id host allowed in
    if is_repeat p.window now st
    then record p { recent = set_recent reg.run_id host allowed (repeated st) p.recent }
    else record p {
      recent =
          set_recent reg.run_id host allowed (some (record { at = now; suppressed = 0 })) p.recent;
      rows = if p.records then p.rows ++ decision_row now reg host allowed st ∷ [] else p.rows;
    }

abbrev pub is_open : NetworkMode → Bool
is_open network_open = true
is_open _ = false

-- `splitHostPort` is net.SplitHostPort, nothing where it fails.
module _ (to_lower : ℕ → ℕ) (split_host_port : Text → Option (Text × Text)) where
  -- `splitAuthority`
  unfoldable pub split_authority : (authority default_port : Text) → Text × Text
  split_authority authority default_port = elim (split_host_port authority) [
    | none ↦ (authority, default_port)
    | some (host, []) ↦ (host, default_port)
    | some (host, c ∷ port) ↦ (host, c ∷ port)
  ]

  -- `serveMCPIfOurs`: whether the request is one for the MCP server.
  unfoldable pub is_mcp : Proxy → Request → Bool
  unfolding has_prefix any normalize_host split_authority
  is_mcp p r =
      p.mcp
      && (not r.is_connect
          && (has_prefix (codes "/mcp/") r.path && elim r.url_host [
            | none ↦ true
            | some authority ↦
                any (same_text (normalize_host to_lower (split_authority authority (codes "80")).0))
                  mcp_hosts
          ]))

  -- The host and the port that a request is for, unless it is in origin form.
  unfoldable pub target : Request → Option (Text × Text)
  unfolding split_authority
  target r = if r.is_connect then some (split_authority r.host (codes "443")) else elim r.url_host [
    | none ↦ none
    | some authority ↦ some (split_authority authority (codes "80"))
  ]

  -- The policy of a registration on a host.
  unfoldable pub allows : Registration → Text → Bool
  unfolding match_host
  allows reg host = is_open reg.mode || match_host to_lower reg.allow host

  -- What follows the authentication, for a target host.
  unfoldable pub decide :
      (now : Time) → Proxy → Request → Registration → Text × Text → Proxy × Answer
  unfolding allows log_decision
  decide now p r reg ([], port) = (p, bad_request)
  decide now p r reg (c ∷ host, port) =
      let ok = allows reg (c ∷ host) in
      (
        log_decision now reg (c ∷ host) ok p,
        (if not ok
            then forbidden (c ∷ host)
            else if r.is_connect
            then tunnels (c ∷ host) port
            else forwards (c ∷ host)),
      )

  -- `ServeHTTP`
  unfoldable pub serve : (now : Time) → Proxy → Request → Proxy × Answer
  unfolding is_mcp authenticate target decide
  serve now p r = if is_mcp p r then (p, served_mcp) else elim (authenticate p r.basic) [
    | none ↦ (p, proxy_auth_required)
    | some reg ↦ elim (target r) [
      | none ↦ (p, bad_request)
      | some hostport ↦ decide now p r reg hostport
    ]
  ]
