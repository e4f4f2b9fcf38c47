-- ===== src/Proxy/Hosts.antt =====
-- internal/module/docker/proxy.go: the allow sets of hosts. A text is the list of its characters;
-- `to_lower` is `unicode.ToLower`, by which strings.ToLower maps each of them.
pub mod Laws
use lexicode.Prelude.{
  ℕ, Bool, true, false, ◌||◌, List, [], ◌∷◌, ◌++◌, ◌==◌, Option, none, some, if◌then◌else◌, any,
}
use lexicode.Domain.Payload.{Text, codes, same_text}
use lexicode.Mentions.{after_prefix}
use lexicode.Triggers.Template.{trim, trim_left, trim_right}

-- `strings.TrimSuffix` of a dot.
unfoldable pub trim_dot : Text → Text
trim_dot [] = []
trim_dot (c ∷ []) = if c == b'.' then [] else c ∷ []
trim_dot (c ∷ d ∷ s) = c ∷ trim_dot (d ∷ s)

-- `strings.HasSuffix`
unfoldable pub has_suffix : (suffix : Text) → Text → Bool
unfolding same_text
has_suffix suffix [] = same_text [] suffix
has_suffix suffix (c ∷ s) = same_text (c ∷ s) suffix || has_suffix suffix s

-- `hostMatcher`: the keys of its map, and its suffixes, which start with a dot.
pub record HostMatcher : Type 0 where
  pub exact : List Text
  pub suffixes : List Text

abbrev pub no_hosts : HostMatcher
no_hosts = record { exact = []; suffixes = [] }

-- What one pattern, normalized, adds to a matcher.
unfoldable pub add_pattern : Text → HostMatcher → HostMatcher
unfolding after_prefix
add_pattern [] m = m
add_pattern (c ∷ s) m = elim (after_prefix (codes "*.") (c ∷ s)) [
  | none ↦ record m { exact = (c ∷ s) ∷ m.exact }
  | some [] ↦ m
  | some (d ∷ base) ↦ record {
    exact = (d ∷ base) ∷ m.exact;
    suffixes = (b'.' ∷ d ∷ base) ∷ m.suffixes;
  }
]

-- `match`, of a host that is normalized.
unfoldable pub match_normal : HostMatcher → Text → Bool
unfolding any has_suffix
match_normal m [] = false
match_normal m (c ∷ h) =
    any (same_text (c ∷ h)) m.exact || any (λ suffix. has_suffix suffix (c ∷ h)) m.suffixes

module _ (to_lower : ℕ → ℕ) where
  unfoldable pub lower_case : Text → Text
  lower_case [] = []
  lower_case (c ∷ s) = to_lower c ∷ lower_case s

  -- `normalizeHost`
  unfoldable pub normalize_host : Text → Text
  unfolding lower_case trim_dot trim_left trim_right
  normalize_host h = trim_dot (lower_case (trim h))

  -- `newHostMatcher`; the order of a set does not matter.
  unfoldable pub new_host_matcher : List Text → HostMatcher
  unfolding add_pattern normalize_host
  new_host_matcher [] = no_hosts
  new_host_matcher (p ∷ ps) = add_pattern (normalize_host p) (new_host_matcher ps)

  unfoldable pub match_host : HostMatcher → Text → Bool
  unfolding match_normal normalize_host
  match_host m host = match_normal m (normalize_host host)
