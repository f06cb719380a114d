-- ===== src/Strings/Fields.antt =====
-- `strings.Fields` and `strings.Join` with a blank.
use mathlib.Core.List.{append-nil, append_assoc}
use np_linuxptp_daemon.Base.{
  ℕ, ◌≡◌, refl, sym, ap, ◌∙◌, ◌≢◌, true, false, List, [], ◌∷◌, ◌++◌, arith, if◌then◌else◌, All, any,
}
use np_linuxptp_daemon.Strings.{Bytes, is_space}

abbrev flush : Bytes → List Bytes → List Bytes
flush [] rest = rest
flush (c ∷ w) rest = (c ∷ w) ∷ rest

-- The fields, where `word` is what was read of the field at hand.
unfoldable pub fields_from : Bytes → Bytes → List Bytes
fields_from word [] = flush word []
fields_from word (c ∷ s) =
    let rest = fields_from (if is_space c then [] else word ++ c ∷ []) s in
    if is_space c then flush word rest else rest

unfoldable pub fields : Bytes → List Bytes
unfolding fields_from is_space
fields s = fields_from [] s

-- `strings.Join(words, " ")`
unfoldable pub join : List Bytes → Bytes
join [] = []
join (w ∷ []) = w
join (w ∷ v ∷ ws) = w ++ 0x20 ∷ join (v ∷ ws)

abbrev pub IsSolid : Bytes → Type 0
IsSolid = All (λ c. is_space c ≡ false)

-- A word has no white space and is not empty.
abbrev pub IsWord : Bytes → Type 0
IsWord w = (w ≢ []) × IsSolid w

pub fields_from-IsSolid :
    (w t s : Bytes) → IsSolid t → fields_from w (t ++ s) ≡ fields_from (w ++ t) s
unfolding fields_from
fields_from-IsSolid w [] s h = rw append-nil
fields_from-IsSolid w (c ∷ t) s h =
    rw h.0 (fields_from-IsSolid (w ++ c ∷ []) t s h.1 ∙ rw append_assoc)

flush-IsWord : (w : Bytes) (rest : List Bytes) → w ≢ [] → flush w rest ≡ w ∷ rest
flush-IsWord [] rest h = absurd (h refl)
flush-IsWord (c ∷ w) rest h = refl

pub fields_from_word :
    (w : Bytes) (c : ℕ) (s : Bytes)
    → IsWord w
    → is_space c ≡ true
    → fields_from [] (w ++ c ∷ s) ≡ w ∷ fields_from [] s
unfolding fields_from
fields_from_word w c s h blank =
    fields_from-IsSolid [] w (c ∷ s) h.1 ∙ rw blank (flush-IsWord w _ h.0)

pub fields_from_blank :
    (c : ℕ) (s : Bytes) → is_space c ≡ true → fields_from [] (c ∷ s) ≡ fields_from [] s
unfolding fields_from
fields_from_blank c s blank = rw blank

pub fields_from_last : (w : Bytes) → IsWord w → fields_from [] w ≡ w ∷ []
fields_from_last w h =
    ap (fields_from []) (sym (append-nil w))
    ∙ fields_from-IsSolid [] w [] h.1
    ∙ (unfold fields_from in flush-IsWord w [] h.0)

pub blank_is_space : is_space 0x20 ≡ true
unfolding is_space
blank_is_space = refl

-- Words joined by blanks are the fields of the text.
pub fields-join : (ws : List Bytes) → All IsWord ws → fields_from [] (join ws) ≡ ws
unfolding join
fields-join [] h = unfold fields_from in refl
fields-join (w ∷ []) h = fields_from_last w h.0
fields-join (w ∷ v ∷ ws) h =
    fields_from_word w 0x20 (join (v ∷ ws)) h.0 blank_is_space
    ∙ ap (◌∷◌ w) (fields-join (v ∷ ws) h.1)

test-IsSolid : (s : Bytes) → any is_space s ≡ false → IsSolid s
test-IsSolid [] h = tt
test-IsSolid (c ∷ s) h = (ground arith, test-IsSolid s (ground arith))

-- A literal is a word where a search for white space finds none.
pub test-IsWord : (s : Bytes) → s ≢ [] → any is_space s ≡ false → IsWord s
test-IsWord s ne h = (ne, test-IsSolid s h)
