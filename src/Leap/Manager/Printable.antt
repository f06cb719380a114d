-- ===== src/Leap/Manager/Printable.antt =====
-- The leap file that updateLeapFile makes, and what its text can express (pkg/leap/leap-file.go).

use mathlib.Core.Option
use np_linuxptp_daemon.Base.{
  ℕ, zero, suc, ◌-◌, ◌^◌, ◌≤◌, ◌≡◌, refl, ◌≢◌, Bool, true, false, not, ◌&&◌, List, [], ◌∷◌, ◌++◌,
  arith, if◌then◌else◌, get_elem?, All,
}
use np_linuxptp_daemon.Base.Int.{ℤ, pos, negsuc, sub_ℕ, quot, clamp64, eqb_ℤ}
use np_linuxptp_daemon.Strings.{Bytes, codes, is_space}
use np_linuxptp_daemon.Strings.Fields.{IsSolid, IsWord}
use np_linuxptp_daemon.Strings.Number.{
  Fits, format_int, format_nat, format_int-IsWord, format_nat-IsWord, parse_int-format_int,
}
use np_linuxptp_daemon.Leap.File.{LeapEvent, LeapFile}
use np_linuxptp_daemon.Leap.File.RoundTrip.{
  is_special, IsPlain, IsPhrase, IsPrintableEvent, IsPrintable, format_int-IsPlain,
}
use np_linuxptp_daemon.Leap.Calendar.{
  nanoseconds, seconds_of, date_comment, month_name, month_names, date_of,
}
use np_linuxptp_daemon.Leap.Manager.{rehash, new_event, updated_file}
use np_linuxptp_daemon.Leap.Manager.Hash.{IsSha1, group_hash-IsPhrase, join-IsPlain}

All-snoc-event :
    (es : List LeapEvent) (e : LeapEvent)
    → All IsPrintableEvent es
    → IsPrintableEvent e
    → All IsPrintableEvent (es ++ e ∷ [])
All-snoc-event [] e h k = (k, tt)
All-snoc-event (f ∷ es) e h k = (h.0, All-snoc-event es e h.1 k)

-- A word that the template writes as it is.
abbrev IsName : Bytes → Type 0
IsName w = IsWord w × IsPlain w

get_or-IsName :
    (ws : List Bytes) (i : ℕ) (d : Bytes)
    → All IsName ws
    → IsName d
    → IsName (Option.get_or (get_elem? ws i) d)
get_or-IsName [] i d h k = k
get_or-IsName (w ∷ ws) zero d h k = h.0
get_or-IsName (w ∷ ws) (suc i) d h k = get_or-IsName ws i d h.1 k

is_name : Bytes → Bool
is_name [] = true
is_name (c ∷ s) = let rest = is_name s in not (is_space c) && (not (is_special c) && rest)

is_name_parts : (s : Bytes) → is_name s ≡ true → IsSolid s × IsPlain s
unfolding is_name
is_name_parts [] h = (tt, tt)
is_name_parts (c ∷ s) h =
    let (solid, plain) = is_name_parts s (ground arith) in
    ((ground arith, solid), (ground arith, plain))

is_name-IsName : (s : Bytes) → s ≢ [] → is_name s ≡ true → IsName s
is_name-IsName s ne h = let (solid, plain) = is_name_parts s h in ((ne, solid), plain)

month_names-IsName : All IsName month_names
unfolding is_name is_space
month_names-IsName =
    let name = is_name-IsName in
    (
      name _ (λ e. cc) refl,
      (
        name _ (λ e. cc) refl,
        (
          name _ (λ e. cc) refl,
          (
            name _ (λ e. cc) refl,
            (
              name _ (λ e. cc) refl,
              (
                name _ (λ e. cc) refl,
                (
                  name _ (λ e. cc) refl,
                  (
                    name _ (λ e. cc) refl,
                    (
                      name _ (λ e. cc) refl,
                      (name _ (λ e. cc) refl, (name _ (λ e. cc) refl, (name _ (λ e. cc) refl, tt))),
                    ),
                  ),
                ),
              ),
            ),
          ),
        ),
      ),
    )

month_name-IsName : (m : ℕ) → IsName (month_name m)
unfolding month_name
month_name-IsName m =
    get_or-IsName month_names (m - 1) (codes "%!M") month_names-IsName
      (is_name-IsName _ (λ e. cc) (unfold is_name is_space in refl))

format_nat-IsName : (n : ℕ) → IsName (format_nat n)
unfolding format_int
format_nat-IsName n = (format_nat-IsWord n, format_int-IsPlain (pos n))

date_comment-IsPhrase : (t : ℤ) → IsPhrase (date_comment t)
unfolding date_comment
date_comment-IsPhrase t =
    let d = date_of t in
    let hash = is_name-IsName (codes "#") (λ e. cc) (unfold is_name is_space in refl) in
    let (w1, p1) = format_nat-IsName d.day in
    let (w2, p2) = month_name-IsName d.month in
    let (w3, p3) = format_nat-IsName d.year in
    record {
      words = codes "#" ∷ format_nat d.day ∷ month_name d.month ∷ format_nat d.year ∷ [];
      are_words = (hash.0, (w1, (w2, (w3, tt))));
      joined = refl;
      plain = join-IsPlain _ (hash.1, (p1, (p2, (p3, tt))));
    }

clamp64-Fits : (z : ℤ) → Fits 64 (clamp64 z)
unfolding clamp64
clamp64-Fits (pos n) = ground arith
clamp64-Fits (negsuc n) = ground arith

Fits-sub_ℕ : (n : ℕ) → n ≤ 2 ^ 63 → Fits 64 (sub_ℕ 0 n)
Fits-sub_ℕ zero h = omega arith
Fits-sub_ℕ (suc n) h = ground arith

quot-Fits : (z : ℤ) → Fits 64 z → Fits 64 (quot z nanoseconds)
unfolding quot
quot-Fits (pos n) h = omega arith
quot-Fits (negsuc n) h = Fits-sub_ℕ _ (omega arith)

pub seconds_of-Fits : (t : ℤ) → Fits 64 (seconds_of t)
unfolding seconds_of
seconds_of-Fits t = quot-Fits (clamp64 t) (clamp64-Fits t)

new_event-IsPrintableEvent : (t sec : ℤ) → Fits 8 sec → IsPrintableEvent (new_event t sec)
unfolding new_event
new_event-IsPrintableEvent t sec fits = record {
  time_word = format_int-IsWord (seconds_of t);
  time_plain = format_int-IsPlain (seconds_of t);
  time = seconds_of t;
  time_reads = parse_int-format_int 64 (seconds_of t) (seconds_of-Fits t);
  fits = fits;
  phrase = date_comment-IsPhrase t;
}

rehash-IsPhrase :
    (sha1_hex : Bytes → Bytes) (l : LeapFile)
    → IsSha1 sha1_hex
    → IsPhrase ((rehash sha1_hex l).hash)
unfolding rehash
rehash-IsPhrase sha1_hex l h = group_hash-IsPhrase _ (h.long _) (h.hex _)

rehash-IsPrintable :
    (sha1_hex : Bytes → Bytes) (l : LeapFile)
    → IsSha1 sha1_hex
    → IsWord l.update_time × IsPlain l.update_time
    → IsWord l.expiration_time × IsPlain l.expiration_time
    → All IsPrintableEvent l.leap_events
    → IsPrintable (rehash sha1_hex l)
unfolding rehash
rehash-IsPrintable sha1_hex l h update expiration events = record {
  update_word = update.0;
  update_plain = update.1;
  expiration_word = expiration.0;
  expiration_plain = expiration.1;
  events = events;
  phrase = unfold rehash in rehash-IsPhrase sha1_hex l h;
}

events_after : ℤ → ℤ → List LeapEvent → List LeapEvent
events_after time sec es = if eqb_ℤ sec (pos 0) then es else es ++ new_event time sec ∷ []

either-IsPrintableEvent :
    (b : Bool) (es fs : List LeapEvent)
    → All IsPrintableEvent es
    → All IsPrintableEvent fs
    → All IsPrintableEvent (if b then es else fs)
either-IsPrintableEvent true es fs h k = h
either-IsPrintableEvent false es fs h k = k

events_after-IsPrintableEvent :
    (time sec : ℤ) (es : List LeapEvent)
    → Fits 8 sec
    → All IsPrintableEvent es
    → All IsPrintableEvent (events_after time sec es)
unfolding events_after
events_after-IsPrintableEvent time sec es fits h =
    either-IsPrintableEvent (eqb_ℤ sec (pos 0)) es _ h
      (All-snoc-event es (new_event time sec) h (new_event-IsPrintableEvent time sec fits))

-- updateLeapFile keeps a file that its text can express such a file, for leap seconds of eight
-- bits.
pub updated_file-IsPrintable :
    (sha1_hex : Bytes → Bytes) (time sec now : ℤ) (l : LeapFile)
    → IsSha1 sha1_hex
    → Fits 8 sec
    → IsPrintable l
    → IsPrintable (updated_file sha1_hex time sec now l)
unfolding updated_file events_after
updated_file-IsPrintable sha1_hex time sec now l h fits p =
    rehash-IsPrintable sha1_hex _ h
      (format_int-IsWord (seconds_of now), format_int-IsPlain (seconds_of now))
      (p.expiration_word, p.expiration_plain)
      (unfold events_after in events_after-IsPrintableEvent time sec l.leap_events fits p.events)
