-- ===== src/Strings/Search.antt =====
-- `strings.HasPrefix` and `strings.Contains` on a text that was extended.
use np_linuxptp_daemon.Base.{◌≡◌, refl, true, [], ◌∷◌, ◌++◌, arith}
use np_linuxptp_daemon.Strings.{Bytes, has_prefix, contains}

has_prefix-append : (s t p : Bytes) → has_prefix s p ≡ true → has_prefix (s ++ t) p ≡ true
unfolding has_prefix
has_prefix-append s t [] h = refl
has_prefix-append [] t (c ∷ p) h = cc
has_prefix-append (b ∷ s) t (c ∷ p) h = ground (arith, has_prefix-append s t p)

has_prefix-contains : (s p : Bytes) → has_prefix s p ≡ true → contains s p ≡ true
unfolding contains
has_prefix-contains [] p h = h
has_prefix-contains (c ∷ s) p h = ground arith

pub contains-append : (s t p : Bytes) → contains s p ≡ true → contains (s ++ t) p ≡ true
unfolding contains
contains-append [] t p h = has_prefix-contains t p (has_prefix-append [] t p h)
contains-append (c ∷ s) t p h = ground (arith, has_prefix-append (c ∷ s) t p, contains-append s t p)

pub contains_behind : (s t p : Bytes) → contains t p ≡ true → contains (s ++ t) p ≡ true
unfolding contains
contains_behind [] t p h = h
contains_behind (c ∷ s) t p h = ground (arith, contains_behind s t p)
