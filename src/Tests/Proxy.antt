-- ===== src/Tests/Proxy.antt =====
-- The theorems on the egress proxy at a run with an allowlist.
use lexicode.Prelude.{
  ℕ, ◌+◌, ◌≡◌, ◌≢◌, ◌↔◌, ◌⊎◌, refl, true, false, List, [], ◌∷◌, none, some, any, count_where,
}
use lexicode.Domain.Payload.{Text, codes, same_text}
use lexicode.Mentions.{after_prefix}
use lexicode.Triggers.Template.{trim_left, trim_right}
use lexicode.Proxy.Hosts.{
  trim_dot, has_suffix, lower_case, normalize_host, add_pattern, new_host_matcher, match_normal,
  match_host,
}
use lexicode.Proxy.Hosts.Laws.{Permits}
use lexicode.Proxy.Registry.{
  network_open, network_allowlist, NetworkPolicy, Registration, Proxy, patterns_of, unregister,
  enroll, compiled, register, cut_colon, token_of, authenticate, without_token, with_token, at_run,
}
use lexicode.Proxy.Registry.Sound.{IsSound, enroll-IsSound}
use lexicode.Proxy.Serve.{
  log_decision, set_recent, same_key, Request, is_mcp, split_authority, target, allows, decide,
  serve,
}
use lexicode.Proxy.Registry.Means.{Means}
use lexicode.Proxy.Serve.Access.{is_dial, serve-register, serve-unregister}
use lexicode.Proxy.Serve.Recorded.{
  Act, decides, registers, leaves, act, acts, accounted, act_is_about, dropped, acts-accounted,
}

-- A text is in lower case already.
abbrev same : ℕ → ℕ
same c = c

abbrev empty : Proxy
empty = record {
  by_token = λ t. none;
  by_run = λ r. none;
  recent = λ r host allowed. none;
  window = 30000;
  rows = [];
  records = true;
  mcp = false;
}

empty-IsSound : IsSound empty
empty-IsSound = record { tokens = λ t reg h. absurd (cc); runs = λ r reg h. absurd (cc) }

abbrev policy : NetworkPolicy
policy = record { mode = network_allowlist; allow = codes "*.pypi.org" ∷ [] }

abbrev git_hosts : List Text
git_hosts = codes "github.com" ∷ []

abbrev pip : Request
pip = record {
  is_connect = true;
  host = codes "Files.pypi.org:443";
  url_host = none;
  path = [];
  basic = some (codes "run:t0k");
}

abbrev registered : Proxy
registered = register same 1 (codes "t0k") policy git_hosts empty

permits_base :
    match_host same (new_host_matcher same (patterns_of policy git_hosts)) (codes "pypi.org.")
    ≡ true
unfolding match_host new_host_matcher patterns_of match_normal normalize_host lower_case trim_left
    trim_right trim_dot add_pattern after_prefix any same_text has_suffix
permits_base = refl

refuses_other :
    match_host same (new_host_matcher same (patterns_of policy git_hosts)) (codes "evilpypi.org")
    ≡ false
unfolding match_host new_host_matcher patterns_of match_normal normalize_host lower_case trim_left
    trim_right trim_dot add_pattern after_prefix any same_text has_suffix
refuses_other = refl

enroll-IsSound_example : IsSound (enroll (compiled same 1 (codes "t0k") policy git_hosts) empty)
enroll-IsSound_example =
    enroll-IsSound empty (compiled same 1 (codes "t0k") policy git_hosts) (λ other h. absurd (cc))
      empty-IsSound

plain : is_mcp same cut_colon empty pip ≡ false
unfolding is_mcp
plain = refl

known : token_of pip.basic ≡ some (codes "t0k")
unfolding token_of cut_colon same_text
known = refl

aimed : target same cut_colon pip ≡ some (codes "Files.pypi.org", codes "443")
unfolding target split_authority cut_colon
aimed = refl

serve-register_example : (is_dial (serve same cut_colon 5000 registered pip).1 ≡ true) ↔ (
    (policy.mode ≡ network_open)
    ⊎ (normalize_host same (codes "Files.pypi.org") ≢ []
        × ((pattern : Text) × Means policy git_hosts pattern
            × Permits
                (normalize_host same pattern)
                (normalize_host same (codes "Files.pypi.org")))))
serve-register_example =
    serve-register same cut_colon 5000 empty 1 (codes "t0k") policy git_hosts pip b'F'
      (codes "iles.pypi.org") (codes "443") plain known aimed

-- Another run, which stays when the first one goes; its requests come from the same image.
abbrev one : Registration
one = compiled same 1 (codes "t0k") policy git_hosts

abbrev two : Proxy
two = enroll (compiled same 2 (codes "t2") policy git_hosts) (enroll one empty)

abbrev pip_2 : Request
pip_2 = record pip { basic = some (codes "run:t2") }

two-IsSound : IsSound two
two-IsSound =
    enroll-IsSound (enroll one empty) (compiled same 2 (codes "t2") policy git_hosts)
      (λ other h. absurd (unfold enroll with_token without_token same_text compiled in cc))
      (enroll-IsSound empty one (λ other h. absurd (cc)) empty-IsSound)

dials : is_dial (serve same cut_colon 5000 (unregister 1 two) pip_2).1 ≡ true
unfolding serve is_mcp authenticate token_of cut_colon same_text target split_authority decide
    allows unregister enroll with_token without_token at_run compiled patterns_of match_host
    new_host_matcher match_normal normalize_host lower_case trim_left trim_right trim_dot
    add_pattern after_prefix any has_suffix
dials = refl

serve-unregister_example :
    (reg : Registration) × (authenticate two pip_2.basic ≡ some reg) × (reg.run_id ≢ 1)
serve-unregister_example = serve-unregister same cut_colon 5000 two 1 pip_2 two-IsSound dials

abbrev asks_for : (at : ℕ) → Act
asks_for at = decides (record { at = at; reg = one; host = codes "a.b"; allowed = false })

-- Two decisions and a repeat of each; the repeat of the second is dropped.
abbrev history : List Act
history =
    registers one ∷ asks_for 1000 ∷ asks_for 2000 ∷ asks_for 40000 ∷ asks_for 41000 ∷ leaves 1 ∷ []

acts-accounted_example :
    accounted 1 (codes "a.b") false (acts history empty)
      + dropped 1 (codes "a.b") false history empty
    ≡ accounted 1 (codes "a.b") false empty
      + count_where (act_is_about 1 (codes "a.b") false) history
acts-accounted_example = acts-accounted 1 (codes "a.b") false history empty refl

drops_one : dropped 1 (codes "a.b") false history empty ≡ 1
unfolding dropped act enroll log_decision set_recent same_key same_text unregister compiled
drops_one = refl
