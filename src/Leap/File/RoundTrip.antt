-- ===== src/Leap/File/RoundTrip.antt =====
-- renderLeapData and parseLeapFile (pkg/leap/leap-file.go), one after the other.
use mathlib.Core.List.{append-nil, append_assoc}
use np_linuxptp_daemon.Base.{
  ℕ, suc, ◌≡◌, refl, ap, ◌∙◌, ◌≢◌, Bool, true, false, ◌||◌, List, [], ◌∷◌, ◌++◌, map, some, arith,
  ◌==◌, All,
}
use np_linuxptp_daemon.Base.Int.{ℤ, pos, negsuc}
use np_linuxptp_daemon.Strings.{Bytes, codes, has_prefix, is_space}
use np_linuxptp_daemon.Strings.Fields.{
  fields, fields_from, join, IsSolid, IsWord, fields_from_word, fields_from_last, fields_from_blank,
  fields-join, blank_is_space,
}
use np_linuxptp_daemon.Strings.Lines.{
  split, IsLine, split-IsLine, split_last, IsLine-append, test-IsLine,
}
use np_linuxptp_daemon.Strings.Number.{
  parse_int, format_int, format_nat, Fits, IsDigit, parse_int-format_int, format_int-IsWord,
  format_nat-IsDigit,
}
use np_linuxptp_daemon.Leap.File.{
  LeapEvent, LeapFile, empty_file, parsed, parse_event, parse_line, parse_lines, parse_leap_file,
  escape, render_event, render_events, render_leap_data, first_line, second_line,
}

-- A byte that the template writes in another way.
abbrev pub is_special : ℕ → Bool
is_special c =
    c == 0 || (c == b'"' || (c == b'&' || (c == b'\'' || (c == b'+' || (c == b'<' || c == b'>')))))

abbrev pub IsPlain : Bytes → Type 0
IsPlain = All (λ c. is_special c ≡ false)

-- Words with single blanks between them.
pub record IsPhrase (s : Bytes) : Type 0 where
  pub words : List Bytes
  pub are_words : All IsWord words
  pub joined : s ≡ join words
  pub plain : IsPlain s

pub record IsPrintableEvent (e : LeapEvent) : Type 0 where
  pub time_word : IsWord e.leap_time
  pub time_plain : IsPlain e.leap_time
  pub time : ℤ
  pub time_reads : parse_int 64 e.leap_time ≡ some time
  pub fits : Fits 8 e.leap_sec
  pub phrase : IsPhrase e.comment

-- A file that its text can express.
pub record IsPrintable (l : LeapFile) : Type 0 where
  pub update_word : IsWord l.update_time
  pub update_plain : IsPlain l.update_time
  pub expiration_word : IsWord l.expiration_time
  pub expiration_plain : IsPlain l.expiration_time
  pub events : All IsPrintableEvent l.leap_events
  pub phrase : IsPhrase l.hash

escape-IsPlain : (s : Bytes) → IsPlain s → escape s ≡ s
unfolding escape
escape-IsPlain [] h = refl
escape-IsPlain (c ∷ s) h = ground (arith, escape-IsPlain s h.1)

IsDigit-IsPlain : (s : Bytes) → All IsDigit s → IsPlain s
IsDigit-IsPlain [] h = tt
IsDigit-IsPlain (c ∷ s) h = (ground arith, IsDigit-IsPlain s h.1)

pub format_int-IsPlain : (z : ℤ) → IsPlain (format_int z)
unfolding format_int
format_int-IsPlain (pos n) = IsDigit-IsPlain (format_nat n) (format_nat-IsDigit n)
format_int-IsPlain (negsuc n) =
    (refl, IsDigit-IsPlain (format_nat (suc n)) (format_nat-IsDigit (suc n)))

IsSolid-IsLine : (s : Bytes) → IsSolid s → IsLine b'\n' s
unfolding is_space
IsSolid-IsLine [] h = tt
IsSolid-IsLine (c ∷ s) h = (ground arith, IsSolid-IsLine s h.1)

join-IsLine : (ws : List Bytes) → All IsWord ws → IsLine b'\n' (join ws)
unfolding join
join-IsLine [] h = tt
join-IsLine (w ∷ []) h = IsSolid-IsLine w h.0.1
join-IsLine (w ∷ v ∷ ws) h =
    IsLine-append b'\n' w (0x20 ∷ join (v ∷ ws)) (IsSolid-IsLine w h.0.1)
      (refl, join-IsLine (v ∷ ws) h.1)

IsPhrase-IsLine : (s : Bytes) → IsPhrase s → IsLine b'\n' s
IsPhrase-IsLine s p = rw p.joined (join-IsLine p.words p.are_words)

IsPhrase-fields : (s : Bytes) (p : IsPhrase s) → fields_from [] s ≡ p.words
IsPhrase-fields s p = ap (fields_from []) p.joined ∙ fields-join p.words p.are_words

-- The line of an event as its fields.
plain_event : LeapEvent → Bytes
plain_event e =
    e.leap_time ++ (codes "     " ++ (format_int e.leap_sec ++ (codes "    " ++ e.comment)))

render_event-plain : (e : LeapEvent) → IsPrintableEvent e → render_event e ≡ plain_event e
unfolding render_event plain_event
render_event-plain e p = rw (
  escape-IsPlain e.leap_time p.time_plain,
  escape-IsPlain (format_int e.leap_sec) (format_int-IsPlain e.leap_sec),
  escape-IsPlain e.comment p.phrase.plain,
)

plain_event-IsLine : (e : LeapEvent) → IsPrintableEvent e → IsLine b'\n' (plain_event e)
unfolding plain_event
plain_event-IsLine e p =
    IsLine-append b'\n' e.leap_time _ (IsSolid-IsLine e.leap_time p.time_word.1) (
      refl,
      (
        refl,
        (
          refl,
          (
            refl,
            (
              refl,
              IsLine-append b'\n' (format_int e.leap_sec) _
                  (IsSolid-IsLine _ (format_int-IsWord e.leap_sec).1)
                  (refl, (refl, (refl, (refl, IsPhrase-IsLine e.comment p.phrase)))),
            ),
          ),
        ),
      ),
    )

fields_spaces3 : (s : Bytes) → fields_from [] (0x20 ∷ 0x20 ∷ 0x20 ∷ s) ≡ fields_from [] s
unfolding fields_from is_space
fields_spaces3 s = refl

fields-plain_event :
    (e : LeapEvent) (p : IsPrintableEvent e)
    → fields (plain_event e) ≡ e.leap_time ∷ format_int e.leap_sec ∷ p.phrase.words
unfolding plain_event fields
fields-plain_event e p =
    let back = codes "    " ++ e.comment in
    let behind = format_int e.leap_sec ++ back in
    fields_from_word e.leap_time 0x20 (codes "    " ++ behind) p.time_word blank_is_space
    ∙ ap (◌∷◌ e.leap_time) (
        fields_from_blank 0x20 (codes "   " ++ behind) blank_is_space
        ∙ fields_spaces3 behind
        ∙ fields_from_word (format_int e.leap_sec) 0x20 (codes "   " ++ e.comment)
            (format_int-IsWord e.leap_sec) blank_is_space
        ∙ ap (◌∷◌ (format_int e.leap_sec))
            (fields_spaces3 e.comment ∙ IsPhrase-fields e.comment p.phrase))

no_hash : (c : ℕ) (s : Bytes) {z : ℤ} → parse_int 64 (c ∷ s) ≡ some z → (c == b'#') ≡ false
unfolding parse_int
no_hash c s h = ground arith

has_prefix-event :
    (t s : Bytes) {z : ℤ}
    → t ≢ []
    → parse_int 64 t ≡ some z
    → (has_prefix (t ++ s) (codes "#$") ≡ false)
      × (has_prefix (t ++ s) (codes "#@") ≡ false)
      × (has_prefix (t ++ s) (codes "#h") ≡ false)
      × (has_prefix (t ++ s) (codes "#") ≡ false)
unfolding has_prefix
has_prefix-event [] s ne h = absurd (ne refl)
has_prefix-event (c ∷ t) s ne h =
    let other = no_hash c t h in (rw other, rw other, rw other, rw other)

parse_line-event :
    (l : LeapFile) (e : LeapEvent)
    → IsPrintableEvent e
    → parse_line l (plain_event e) ≡ parsed (record l { leap_events = l.leap_events ++ e ∷ [] })
unfolding parse_line parse_event plain_event
parse_line-event l e p =
    let (n1, n2, n3, n4) =
      has_prefix-event e.leap_time
        (codes "     " ++ (format_int e.leap_sec ++ (codes "    " ++ e.comment))) p.time_word.0
        p.time_reads in
    rw (
      n1,
      n2,
      n3,
      n4,
      fields-plain_event e p,
      parse_int-format_int 8 e.leap_sec p.fits,
      p.time_reads,
      ← p.phrase.joined,
    )

parse_line-update :
    (l : LeapFile) (t : Bytes)
    → IsWord t
    → parse_line l (codes "#$\t" ++ t) ≡ parsed (record l { update_time = t })
unfolding parse_line has_prefix fields fields_from is_space
parse_line-update l t h = rw (fields_from_last t h)

parse_line-expiration :
    (l : LeapFile) (t : Bytes)
    → IsWord t
    → parse_line l (codes "#@\t" ++ t) ≡ parsed (record l { expiration_time = t })
unfolding parse_line has_prefix fields fields_from is_space
parse_line-expiration l t h = rw (fields_from_last t h)

parse_line-hash :
    (l : LeapFile) (t : Bytes)
    → IsPhrase t
    → parse_line l (codes "#h\t" ++ t) ≡ parsed (record l { hash = t })
unfolding parse_line has_prefix fields fields_from is_space
parse_line-hash l t p = rw (IsPhrase-fields t p, ← p.joined)

parse_lines-events :
    (l : LeapFile) (es : List LeapEvent) (rest : List Bytes)
    → All IsPrintableEvent es
    → parse_lines l (map plain_event es ++ rest)
      ≡ parse_lines (record l { leap_events = l.leap_events ++ es }) rest
unfolding parse_lines
parse_lines-events l [] rest h = rw append-nil
parse_lines-events l (e ∷ es) rest h = rw (parse_line-event l e h.0) (
    parse_lines-events (record l { leap_events = l.leap_events ++ e ∷ [] }) es rest h.1
    ∙ rw append_assoc)

split-render_events :
    (es : List LeapEvent) (rest : Bytes)
    → All IsPrintableEvent es
    → split b'\n' (render_events es rest) ≡ map plain_event es ++ split b'\n' rest
unfolding render_events
split-render_events [] rest h = refl
split-render_events (e ∷ es) rest h = rw (render_event-plain e h.0) (
    split-IsLine b'\n' (plain_event e) _ (plain_event-IsLine e h.0)
    ∙ ap (◌∷◌ (plain_event e)) (split-render_events es rest h.1))

IsWord-escaped : (s : Bytes) → IsWord s → IsPlain s → (escape s ≡ s) × IsLine b'\n' s
IsWord-escaped s w p = (escape-IsPlain s p, IsSolid-IsLine s w.1)

abbrev text_lines : LeapFile → List Bytes
text_lines l =
    first_line
    ∷ second_line
    ∷ (codes "#$\t" ++ l.update_time)
    ∷ (codes "#@\t" ++ l.expiration_time)
    ∷ (map plain_event l.leap_events ++ [] ∷ (codes "#h\t" ++ l.hash) ∷ [])

literal_lines : IsLine b'\n' first_line × IsLine b'\n' second_line
literal_lines = (test-IsLine b'\n' first_line refl, test-IsLine b'\n' second_line refl)

split-render : (l : LeapFile) → IsPrintable l → split b'\n' (render_leap_data l) ≡ text_lines l
unfolding render_leap_data
split-render l p =
    let (update, update_line) = IsWord-escaped l.update_time p.update_word p.update_plain in
    let (expiration, expiration_line) =
      IsWord-escaped l.expiration_time p.expiration_word p.expiration_plain in
    rw (update, expiration, escape-IsPlain l.hash p.phrase.plain)
      (split-IsLine b'\n' first_line _ literal_lines.0
        ∙ ap (◌∷◌ first_line) (
            split-IsLine b'\n' second_line _ literal_lines.1
            ∙ ap (◌∷◌ second_line) (
                split-IsLine b'\n' (codes "#$\t" ++ l.update_time) _
                  (refl, (refl, (refl, update_line)))
                ∙ ap (◌∷◌ (codes "#$\t" ++ l.update_time)) (
                    split-IsLine b'\n' (codes "#@\t" ++ l.expiration_time) _
                      (refl, (refl, (refl, expiration_line)))
                    ∙ ap (◌∷◌ (codes "#@\t" ++ l.expiration_time)) (
                        split-render_events l.leap_events _ p.events
                        ∙ ap (◌++◌ (map plain_event l.leap_events)) (
                            split-IsLine b'\n' [] _ tt
                            ∙ ap (◌∷◌ []) (
                                split_last b'\n' (codes "#h\t" ++ l.hash)
                                  (refl, (refl, (refl, IsPhrase-IsLine l.hash p.phrase))))))))))

parse_line-comment :
    (l : LeapFile) (s : Bytes)
    → has_prefix s (codes "#") ≡ true
    → has_prefix s (codes "#$") ≡ false
    → has_prefix s (codes "#@") ≡ false
    → has_prefix s (codes "#h") ≡ false
    → parse_line l s ≡ parsed l
unfolding parse_line
parse_line-comment l s a b c d = rw (b, c, d, a)

parse_line_blank : (l : LeapFile) → parse_line l [] ≡ parsed l
unfolding parse_line parse_event has_prefix fields fields_from
parse_line_blank l = refl

-- A leap file whose texts are words or phrases of words, without the characters that HTML escapes,
-- and whose leap seconds fit in eight bits, is read back from what is rendered of it.
pub parse_leap_file-render_leap_data :
    (l : LeapFile) → IsPrintable l → parse_leap_file (render_leap_data l) ≡ parsed l
unfolding parse_leap_file parse_lines has_prefix
parse_leap_file-render_leap_data l p =
    let first = parse_line-comment empty_file first_line refl refl refl refl in
    let second = parse_line-comment empty_file second_line refl refl refl refl in
    let updated = record empty_file { update_time = l.update_time } in
    let dated = record updated { expiration_time = l.expiration_time } in
    let filled = record dated { leap_events = l.leap_events } in
    rw (
      split-render l p,
      first,
      second,
      parse_line-update empty_file l.update_time p.update_word,
      parse_line-expiration updated l.expiration_time p.expiration_word,
      parse_lines-events dated l.leap_events ([] ∷ (codes "#h\t" ++ l.hash) ∷ []) p.events,
      parse_line_blank filled,
      parse_line-hash filled l.hash p.phrase,
    )
