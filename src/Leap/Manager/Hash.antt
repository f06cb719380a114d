-- ===== src/Leap/Manager/Hash.antt =====
-- The grouped hash of rehashLeapData (pkg/leap/leap-file.go).
use mathlib.Core.List.{append_assoc}
use np_linuxptp_daemon.Base.{
  ℕ, zero, suc, ◌+◌, ◌*◌, ◌≤◌, ◌<◌, ◌≡◌, refl, sym, ap, ◌∙◌, ◌≢◌, true, ◌&&◌, ◌||◌, List, [], ◌∷◌,
  ◌++◌, arith, leb, length, take, drop, All,
}
use np_linuxptp_daemon.Strings.{Bytes, is_space}
use np_linuxptp_daemon.Strings.Fields.{join, IsSolid, IsWord}
use np_linuxptp_daemon.Leap.File.RoundTrip.{IsPlain, IsPhrase}
use np_linuxptp_daemon.Leap.Manager.{add_group, slice, group_hash}

-- A digit of a number in base sixteen, as `%x` prints it.
abbrev pub IsHex : ℕ → Type 0
IsHex c = ((leb b'0' c && leb c b'9') || (leb b'a' c && leb c b'f')) ≡ true

-- What `fmt.Sprintf("%x", sha1.Sum(…))` gives: forty digits.
pub record IsSha1 (sha1_hex : Bytes → Bytes) : Type 0 where
  pub long : (s : Bytes) → length (sha1_hex s) ≡ 40
  pub hex : (s : Bytes) → All IsHex (sha1_hex s)

IsHex-IsSolid : (s : Bytes) → All IsHex s → IsSolid s
unfolding is_space
IsHex-IsSolid [] h = tt
IsHex-IsSolid (c ∷ s) h = (ground arith, IsHex-IsSolid s h.1)

IsHex-IsPlain : (s : Bytes) → All IsHex s → IsPlain s
IsHex-IsPlain [] h = tt
IsHex-IsPlain (c ∷ s) h = (ground arith, IsHex-IsPlain s h.1)

All-take : (n : ℕ) (s : Bytes) → All IsHex s → All IsHex (take n s)
All-take zero s h = tt
All-take (suc n) [] h = tt
All-take (suc n) (c ∷ s) h = (h.0, All-take n s h.1)

All-drop : (n : ℕ) (s : Bytes) → All IsHex s → All IsHex (drop n s)
All-drop zero s h = h
All-drop (suc n) [] h = tt
All-drop (suc n) (c ∷ s) h = All-drop n s h.1

slice-ne-nil : (n : ℕ) (s : Bytes) → n < length s → take 8 (drop n s) ≢ []
slice-ne-nil zero [] h = absurd (omega arith)
slice-ne-nil zero (c ∷ s) h = λ e. cc
slice-ne-nil (suc n) [] h = absurd (omega arith)
slice-ne-nil (suc n) (c ∷ s) h = slice-ne-nil n s (omega arith)

-- A group of the hash.
abbrev IsGroup : Bytes → Type 0
IsGroup w = (w ≢ []) × All IsHex w

slice-IsGroup :
    (hash : Bytes) (i : ℕ) → All IsHex hash → i * 8 < length hash → IsGroup (slice hash i)
slice-IsGroup hash i h small =
    (slice-ne-nil (i * 8) hash small, All-take 8 (drop (i * 8) hash) (All-drop (i * 8) hash h))

add_group-ne-nil : (out w : Bytes) → out ≢ [] → add_group out w ≡ out ++ 0x20 ∷ w
add_group-ne-nil [] w h = absurd (h refl)
add_group-ne-nil (c ∷ out) w h = refl

join-ne-nil : (w : Bytes) (ws : List Bytes) → w ≢ [] → join (w ∷ ws) ≢ []
unfolding join
join-ne-nil [] ws h = absurd (h refl)
join-ne-nil (c ∷ w) [] h = λ e. cc
join-ne-nil (c ∷ w) (v ∷ ws) h = λ e. cc

join-snoc :
    (w : Bytes) (ws : List Bytes) (v : Bytes)
    → join (w ∷ (ws ++ v ∷ [])) ≡ join (w ∷ ws) ++ 0x20 ∷ v
unfolding join
join-snoc w [] v = refl
join-snoc w (u ∷ ws) v =
    ap (λ s. w ++ 0x20 ∷ s) (join-snoc u ws v)
    ∙ sym (append_assoc w (0x20 ∷ join (u ∷ ws)) (0x20 ∷ v))

add_group-join :
    (ws : List Bytes) (v : Bytes) → All IsGroup ws → add_group (join ws) v ≡ join (ws ++ v ∷ [])
add_group-join [] v h = unfold join in refl
add_group-join (w ∷ ws) v h =
    add_group-ne-nil (join (w ∷ ws)) v (join-ne-nil w ws h.0.0) ∙ sym (join-snoc w ws v)

All-snoc : (ws : List Bytes) (v : Bytes) → All IsGroup ws → IsGroup v → All IsGroup (ws ++ v ∷ [])
All-snoc [] v h k = (k, tt)
All-snoc (w ∷ ws) v h k = (h.0, All-snoc ws v h.1 k)

groups_from : Bytes → ℕ → ℕ → List Bytes → List Bytes
groups_from hash zero i ws = ws
groups_from hash (suc left) i ws = groups_from hash left (suc i) (ws ++ slice hash i ∷ [])

groups_from-IsGroup :
    (hash : Bytes) (left i : ℕ) (ws : List Bytes)
    → All IsHex hash
    → (left + i) * 8 ≤ length hash
    → All IsGroup ws
    → All IsGroup (groups_from hash left i ws)
      × (group_hash hash left i (join ws) ≡ join (groups_from hash left i ws))
unfolding groups_from group_hash
groups_from-IsGroup hash zero i ws hex small h = (h, refl)
groups_from-IsGroup hash (suc left) i ws hex small h =
    let (all, same) =
      groups_from-IsGroup hash left (suc i) (ws ++ slice hash i ∷ []) hex (omega arith)
        (All-snoc ws (slice hash i) h (slice-IsGroup hash i hex (omega arith))) in
    (all, ap (group_hash hash left (suc i)) (add_group-join ws (slice hash i) h) ∙ same)

IsGroup-IsWord : (ws : List Bytes) → All IsGroup ws → All IsWord ws
IsGroup-IsWord [] h = tt
IsGroup-IsWord (w ∷ ws) h = ((h.0.0, IsHex-IsSolid w h.0.1), IsGroup-IsWord ws h.1)

IsPlain-append : (s t : Bytes) → IsPlain s → IsPlain t → IsPlain (s ++ t)
IsPlain-append [] t h k = k
IsPlain-append (c ∷ s) t h k = (h.0, IsPlain-append s t h.1 k)

pub join-IsPlain : (ws : List Bytes) → All IsPlain ws → IsPlain (join ws)
unfolding join
join-IsPlain [] h = tt
join-IsPlain (w ∷ []) h = h.0
join-IsPlain (w ∷ v ∷ ws) h =
    IsPlain-append w (0x20 ∷ join (v ∷ ws)) h.0 (refl, join-IsPlain (v ∷ ws) h.1)

IsGroup-IsPlain : (ws : List Bytes) → All IsGroup ws → All IsPlain ws
IsGroup-IsPlain [] h = tt
IsGroup-IsPlain (w ∷ ws) h = (IsHex-IsPlain w h.0.1, IsGroup-IsPlain ws h.1)

group_hash-join :
    (hash : Bytes)
    → length hash ≡ 40
    → All IsHex hash
    → All IsGroup (groups_from hash 5 0 [])
      × (group_hash hash 5 0 [] ≡ join (groups_from hash 5 0 []))
unfolding join
group_hash-join hash long hex = groups_from-IsGroup hash 5 0 [] hex (omega arith) tt

pub group_hash-IsPhrase :
    (hash : Bytes) → length hash ≡ 40 → All IsHex hash → IsPhrase (group_hash hash 5 0 [])
group_hash-IsPhrase hash long hex =
    let (groups, same) = group_hash-join hash long hex in
    record {
      words = groups_from hash 5 0 [];
      are_words = IsGroup-IsWord _ groups;
      joined = same;
      plain = rw same (join-IsPlain _ (IsGroup-IsPlain _ groups));
    }
