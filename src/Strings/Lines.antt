-- ===== src/Strings/Lines.antt =====
-- `strings.Split` at one byte.
use np_linuxptp_daemon.Base.{
  ℕ, ◌≡◌, refl, false, List, [], ◌∷◌, ◌++◌, arith, ◌==◌, if◌then◌else◌, All, any,
}
use np_linuxptp_daemon.Strings.{Bytes}

abbrev pub onto_head : ℕ → List Bytes → List Bytes
onto_head c [] = (c ∷ []) ∷ []
onto_head c (l ∷ ls) = (c ∷ l) ∷ ls

unfoldable pub split : ℕ → Bytes → List Bytes
split sep [] = [] ∷ []
split sep (c ∷ s) = let rest = split sep s in if c == sep then [] ∷ rest else onto_head c rest

-- A text without the separator.
abbrev pub IsLine : ℕ → Bytes → Type 0
IsLine sep = All (λ c. (c == sep) ≡ false)

pub split-IsLine :
    (sep : ℕ) (l s : Bytes) → IsLine sep l → split sep (l ++ sep ∷ s) ≡ l ∷ split sep s
unfolding split
split-IsLine sep [] s h = ground arith
split-IsLine sep (c ∷ l) s h = rw (h.0, split-IsLine sep l s h.1) refl

pub split_last : (sep : ℕ) (l : Bytes) → IsLine sep l → split sep l ≡ l ∷ []
unfolding split
split_last sep [] h = refl
split_last sep (c ∷ l) h = rw (h.0, split_last sep l h.1) refl

pub IsLine-append : (sep : ℕ) (a b : Bytes) → IsLine sep a → IsLine sep b → IsLine sep (a ++ b)
IsLine-append sep [] b h k = k
IsLine-append sep (c ∷ a) b h k = (h.0, IsLine-append sep a b h.1 k)

-- A literal is a line where a search for the separator finds none.
pub test-IsLine : (sep : ℕ) (s : Bytes) → any (λ c. c == sep) s ≡ false → IsLine sep s
test-IsLine sep [] h = tt
test-IsLine sep (c ∷ s) h = (ground arith, test-IsLine sep s (ground arith))
