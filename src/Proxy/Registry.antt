-- ===== src/Proxy/Registry.antt =====
-- internal/module/docker/proxy.go: which runs may use the proxy, and what their credentials are.
pub mod Means
pub mod Sound
use lexicode.Prelude.{
  ℕ, Bool, true, false, not, ◌&&◌, ◌||◌, List, [], ◌∷◌, ◌++◌, Option, none, some, ◌==◌,
  if◌then◌else◌, length, ltb,
}
use lexicode.Domain.Words.{Key, Time}
use lexicode.Domain.Payload.{Text, codes, same_text}
use lexicode.Proxy.Hosts.{HostMatcher, new_host_matcher}

pub data NetworkMode : Type 0 where
  network_open network_none network_allowlist : NetworkMode

pub record NetworkPolicy : Type 0 where
  pub mode : NetworkMode
  pub allow : List Text

pub record Registration : Type 0 where
  pub run_id : Key
  pub token : Text
  pub mode : NetworkMode
  pub allow : HostMatcher

pub record DecisionState : Type 0 where
  pub at : Time
  pub suppressed : ℕ

-- The activity of a decision on the network.
pub record DecisionRow : Type 0 where
  pub run_id : Key
  pub host : Text
  pub allowed : Bool
  pub mode : NetworkMode
  pub suppressed_repeats : ℕ
  pub created_at : Time

-- `Proxy`: its maps are functions. `records` says that an appender is set and its appends go through,
-- `mcp` that a handler for the MCP server is mounted.
pub record Proxy : Type 0 where
  pub by_token : Text → Option Registration
  pub by_run : Key → Option Registration
  pub recent : Key → Text → Bool → Option DecisionState
  pub window : Time
  pub rows : List DecisionRow
  pub records : Bool
  pub mcp : Bool

abbrev pub anthropic_hosts : List Text
anthropic_hosts = codes "api.anthropic.com" ∷ codes "claude.ai" ∷ []

-- The patterns that a policy compiles to.
unfoldable pub patterns_of : NetworkPolicy → (git_hosts : List Text) → List Text
patterns_of policy git_hosts =
    anthropic_hosts ++ (git_hosts ++ elim policy.mode [ network_allowlist ↦ policy.allow | _ ↦ [] ])

-- `delete` of a token.
unfoldable pub without_token :
    Option Registration → (Text → Option Registration) → Text → Option Registration
unfolding same_text
without_token none m t = m t
without_token (some old) m t = if same_text t old.token then none else m t

unfoldable pub with_token : Registration → (Text → Option Registration) → Text → Option Registration
unfolding same_text
with_token reg m t = if same_text t reg.token then some reg else m t

unfoldable pub at_run :
    Key → Option Registration → (Key → Option Registration) → Key → Option Registration
at_run run entry m r = if r == run then entry else m r

-- `Unregister`: its decisions are forgotten also for a run that is not known.
unfoldable pub unregister : Key → Proxy → Proxy
unfolding without_token at_run
unregister run p = record p {
  by_token = without_token (p.by_run run) p.by_token;
  by_run = at_run run none p.by_run;
  recent = λ r host allowed. if r == run then none else p.recent r host allowed;
}

-- `Register` of a compiled registration.
unfoldable pub enroll : Registration → Proxy → Proxy
unfolding without_token with_token at_run
enroll reg p = record p {
  by_token = with_token reg (without_token (p.by_run reg.run_id) p.by_token);
  by_run = at_run reg.run_id (some reg) p.by_run;
}

module _ (to_lower : ℕ → ℕ) where
  unfoldable pub compiled :
      (run : Key) (token : Text) → NetworkPolicy → (git_hosts : List Text) → Registration
  unfolding patterns_of
  compiled run token policy git_hosts = record {
    run_id = run;
    token = token;
    mode = policy.mode;
    allow = new_host_matcher to_lower (patterns_of policy git_hosts);
  }

  -- `Register`
  unfoldable pub register :
      (run : Key) (token : Text) → NetworkPolicy → (git_hosts : List Text) → Proxy → Proxy
  unfolding enroll compiled
  register run token policy git_hosts p = enroll (compiled run token policy git_hosts) p

-- `strings.Cut` at a colon.
unfoldable pub cut_colon : Text → Option (Text × Text)
cut_colon [] = none
cut_colon (c ∷ s) =
    let rest = cut_colon s in
    if c == b':'
    then some ([], s)
    else elim rest [ none ↦ none | some (user, token) ↦ some (c ∷ user, token) ]

-- The token of a decoded credential, whose user is always the same.
unfoldable pub token_of : Option Text → Option Text
unfolding cut_colon same_text
token_of none = none
token_of (some raw) = elim (cut_colon raw) [
  | none ↦ none
  | some (user, token) ↦
      if not (same_text user (codes "run")) || same_text token [] then none else some token
]

-- `authenticate`: `basic` is the credential of the header Proxy-Authorization, without its scheme and
-- decoded by encoding/base64, if it has that form.
unfoldable pub authenticate : Proxy → (basic : Option Text) → Option Registration
unfolding token_of
authenticate p basic = elim (token_of basic) [ none ↦ none | some token ↦ p.by_token token ]
