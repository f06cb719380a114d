-- ===== src/Daemon/Failover/Owner.antt =====
-- The loop of announceHAFailOver where one profile has the interface.
use mathlib.Core.List.{append-nil, append_assoc}
use np_linuxptp_daemon.Base.{ℕ, ◌≡◌, refl, ap, ◌∙◌, true, false, List, [], ◌∷◌, ◌++◌, map, any, All}
use np_linuxptp_daemon.Strings.{Bytes, bytes_eq, bytes_eq_iff}
use np_linuxptp_daemon.Strings.Dict.{Dict}
use np_linuxptp_daemon.Daemon.Failover.{Selected, profile_round, profile_loop}

-- A profile without the interface and of another name.
abbrev pub IsOther : Bytes → Bytes → Bytes × List Bytes → Type 0
IsOther iface name (profile, ifaces) =
    (any (λ i. bytes_eq i iface) ifaces ≡ false) × (bytes_eq name profile ≡ false)

abbrev pub selected : Bytes → List Bytes → Selected
selected current inactive = record { current = current; inactive = inactive }

round_other :
    (iface p : Bytes) (is : List Bytes) (current : Bytes) (inactive : List Bytes)
    → IsOther iface current (p, is)
    → profile_round 1 iface (p, is) (selected current inactive)
      ≡ selected current (inactive ++ p ∷ [])
unfolding profile_round
round_other iface p is current inactive (without, other) = rw (without, other) refl

round_owner :
    (iface p : Bytes) (is : List Bytes) (current : Bytes) (inactive : List Bytes)
    → any (λ i. bytes_eq i iface) is ≡ true
    → profile_round 1 iface (p, is) (selected current inactive) ≡ selected p inactive
unfolding profile_round
round_owner iface p is current inactive h = rw (h, (bytes_eq_iff p p).1 refl) refl

profile_loop_others :
    (iface : Bytes) (ps : Dict (List Bytes)) (current : Bytes) (inactive : List Bytes)
    → All (IsOther iface current) ps
    → profile_loop 1 iface ps (selected current inactive)
      ≡ selected current (inactive ++ map (λ p. p.0) ps)
unfolding profile_loop
profile_loop_others iface [] current inactive h = rw append-nil refl
profile_loop_others iface ((p, is) ∷ ps) current inactive (h, hs) =
    rw (round_other iface p is current inactive h) (
      profile_loop_others iface ps current (inactive ++ p ∷ []) hs
      ∙ ap (selected current) (append_assoc inactive (p ∷ []) (map (λ p. p.0) ps)))

profile_loop-append :
    (active : ℕ) (iface : Bytes) (ps qs : Dict (List Bytes)) (s : Selected)
    → profile_loop active iface (ps ++ qs) s
      ≡ profile_loop active iface qs (profile_loop active iface ps s)
unfolding profile_loop
profile_loop-append active iface [] qs s = refl
profile_loop-append active iface (p ∷ ps) qs s =
    profile_loop-append active iface ps qs (profile_round active iface p s)

-- Where one profile alone has the interface that was selected, no profile before it has the empty
-- name and none after it has its name, that profile becomes the current one and every other profile
-- is inactive, in the order of the iteration.
pub profile_loop_owner :
    (iface p : Bytes) (is : List Bytes) (before after : Dict (List Bytes))
    → All (IsOther iface []) before
    → any (λ i. bytes_eq i iface) is ≡ true
    → All (IsOther iface p) after
    → profile_loop 1 iface (before ++ (p, is) ∷ after) (selected [] [])
      ≡ selected p (map (λ q. q.0) before ++ map (λ q. q.0) after)
unfolding profile_loop
profile_loop_owner iface p is before after bs owns others =
    profile_loop-append 1 iface before ((p, is) ∷ after) (selected [] [])
    ∙ rw
        (
          profile_loop_others iface before [] [] bs,
          round_owner iface p is [] (map (λ q. q.0) before) owns,
        )
        (profile_loop_others iface after p (map (λ q. q.0) before) others)
