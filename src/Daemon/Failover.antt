-- ===== src/Daemon/Failover.antt =====
-- announceHAFailOver (pkg/daemon/daemon.go): which profile a line of phc2sys makes active and which
-- inactive. The map of the profiles is a list in the order of its iteration.
pub mod Owner
use np_linuxptp_daemon.Base.{
  ℕ, Bool, true, false, not, ◌&&◌, ◌||◌, List, [], ◌∷◌, ◌++◌, map, Option, none, some, ◌==◌, leb,
  if◌then◌else◌, any, drop, length,
}
use np_linuxptp_daemon.Strings.{Bytes, codes, bytes_eq, has_prefix}
use np_linuxptp_daemon.Strings.Dict.{Dict}
use np_linuxptp_daemon.Daemon.Profiles.{fail_over_indicator}

-- The class `[\w\-]`.
unfoldable pub is_word : ℕ → Bool
is_word c =
    (leb b'a' c && leb c b'z')
    || ((leb b'A' c && leb c b'Z') || ((leb b'0' c && leb c b'9') || (c == b'_' || c == b'-')))

-- The longest run of such characters, and what is behind it.
unfoldable pub word : Bytes → Bytes × Bytes
unfolding is_word
word [] = ([], [])
word (c ∷ s) = let r = word s in if is_word c then (c ∷ r.0, r.1) else ([], c ∷ s)

abbrev with_suffix : Bytes → Bytes × Bytes → Option Bytes
with_suffix suffix ([], rest) = none
with_suffix suffix (c ∷ w, rest) = if has_prefix rest suffix then some (c ∷ w) else none

abbrev or_else : Option Bytes → Option Bytes → Option Bytes
or_else none o = o
or_else (some w) o = some w

abbrev match_here : Bytes → Bytes → Option Bytes
match_here suffix s =
    if has_prefix s (codes "selecting ") then with_suffix suffix (word (drop 10 s)) else none

-- The first group of the leftmost match of `selecting ([\w\-]+)` with the suffix.
unfoldable pub find_selected : Bytes → Bytes → Option Bytes
unfolding word has_prefix
find_selected suffix [] = none
find_selected suffix (c ∷ s) =
    let rest = find_selected suffix s in or_else (match_here suffix (c ∷ s)) rest

-- The current profile and the inactive ones.
pub record Selected : Type 0 where
  pub current : Bytes
  pub inactive : List Bytes

-- One round of the loop over the profiles.
unfoldable pub profile_round : ℕ → Bytes → Bytes × List Bytes → Selected → Selected
profile_round active iface (profile, ifaces) s =
    let current = if any (λ i. bytes_eq i iface) ifaces then profile else s.current in
    record {
      current = current;
      inactive =
          if not (bytes_eq current profile) && active == 1
          then s.inactive ++ profile ∷ []
          else s.inactive;
    }

unfoldable pub profile_loop : ℕ → Bytes → Dict (List Bytes) → Selected → Selected
unfolding profile_round
profile_loop active iface [] s = s
profile_loop active iface (p ∷ ps) s = profile_loop active iface ps (profile_round active iface p s)

-- The lines that are written: each profile with its state.
abbrev lines_of : ℕ → Selected → List (Bytes × ℕ)
lines_of active s = (s.current, active) ∷ map (λ p. (p, 0)) s.inactive

abbrev announce : ℕ → Dict (List Bytes) → Option Bytes → List (Bytes × ℕ)
announce active profiles none = []
announce active profiles (some iface) =
    lines_of active (profile_loop active iface profiles (record { current = []; inactive = [] }))

-- `announceHAFailOver`: what is written to the socket or, without one, printed and set as metrics.
unfoldable pub announce_ha_fail_over : Bytes → Dict (List Bytes) → List (Bytes × ℕ)
unfolding fail_over_indicator find_selected profile_loop
announce_ha_fail_over output profiles =
    let (domain, active) = fail_over_indicator output (length profiles) in
    if domain == 1
    then announce active profiles (find_selected (codes " as domain source clock") output)
    else if domain == 0 && active == 1
    then announce active profiles (find_selected (codes " as out-of-domain source clock") output)
    else []
