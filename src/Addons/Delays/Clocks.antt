-- ===== src/Addons/Delays/Clocks.antt =====
-- The clock identities of the compensations, and what follows a fault.
use np_linuxptp_daemon.Base.{
  ℕ, ◌≡◌, refl, inl, inr, Bool, true, false, List, [], ◌∷◌, ◌++◌, Option, none, some, All,
  Option-cases,
}
use np_linuxptp_daemon.Base.Int.{ℤ}
use np_linuxptp_daemon.Strings.{Bytes}
use np_linuxptp_daemon.Strings.Dict.{Dict, find}
use np_linuxptp_daemon.Addons.Delays.{
  InternalLink, InternalDelays, Fault, Result, ok, fault, ◌>>=◌, init_internal_delays,
  find_internal_link, clock_id_key, add_clock_id, InputDelay, Card, Direction, Compensation, output,
  compensate, input_part, gnss_part, output_loop, card_compensations, find_delay_compensation, Pin,
  nil_panic, pin_loop, send_delay_compensation, apply_delays,
}

-- The compensation carries the clock identity that the settings have for its interface.
abbrev pub IsClocked : Dict Bytes → Compensation → Type 0
IsClocked settings c = find (clock_id_key c.iface) settings ≡ some c.clock_id

-- What a result promises: nothing for a fault.
abbrev pub Gives : Dict Bytes → Result (List Compensation) → Type 0
Gives settings (ok cs) = All (IsClocked settings) cs
Gives settings (fault e) = Unit

All-append :
    (P : Compensation → Type 0) (xs ys : List Compensation) → All P xs → All P ys → All P (xs ++ ys)
All-append P [] ys h k = k
All-append P (x ∷ xs) ys (p, h) k = (p, All-append P xs ys h k)

Gives-bind {ℓ} :
    {A : Type ℓ} (settings : Dict Bytes) (r : Result A) (f : A → Result (List Compensation))
    → ((a : A) → Gives settings (f a))
    → Gives settings (r >>= f)
Gives-bind settings (ok a) f h = h a
Gives-bind settings (fault e) f h = tt

Gives-append :
    (settings : Dict Bytes) (r q : Result (List Compensation))
    → Gives settings r
    → Gives settings q
    → Gives settings (r >>= λ a. q >>= λ b. ok (a ++ b))
Gives-append settings (ok a) (ok b) h k = All-append (IsClocked settings) a b h k
Gives-append settings (ok a) (fault e) h k = tt
Gives-append settings (fault e) q h k = tt

compensate-Gives :
    (z : ℤ) (l : InternalLink) (d : Direction) (card : Card) (settings : Dict Bytes)
    → Gives settings (compensate z l d card settings)
unfolding compensate add_clock_id
compensate-Gives z l d card settings = elim (Option-cases (find (clock_id_key card.id) settings)) [
  | inl missing ↦ rw missing tt
  | inr (id, e) ↦ rw e (e, tt)
]

Gives-three :
    (settings : Dict Bytes) (r q o : Result (List Compensation))
    → Gives settings r
    → Gives settings q
    → Gives settings o
    → Gives settings (r >>= λ a. q >>= λ b. o >>= λ c. ok (a ++ (b ++ c)))
Gives-three settings (ok a) (ok b) (ok c) h k l =
    All-append (IsClocked settings) a (b ++ c) h (All-append (IsClocked settings) b c k l)
Gives-three settings (ok a) (ok b) (fault e) h k l = tt
Gives-three settings (ok a) (fault e) o h k l = tt
Gives-three settings (fault e) q o h k l = tt

input_part-Gives :
    (delays : InternalDelays) (i : Option InputDelay) (card : Card) (settings : Dict Bytes)
    → Gives settings (input_part delays i card settings)
input_part-Gives delays none card settings = tt
input_part-Gives delays (some i) card settings =
    Gives-bind settings (find_internal_link i.connector delays.external_inputs) _
      λ l. compensate-Gives _ l _ card settings

gnss_part-Gives :
    (delays : InternalDelays) (g : Bool) (card : Card) (settings : Dict Bytes)
    → Gives settings (gnss_part delays g card settings)
gnss_part-Gives delays true card settings = compensate-Gives _ delays.gnss_input _ card settings
gnss_part-Gives delays false card settings = tt

output_loop-Gives :
    (delays : InternalDelays) (os : List Bytes) (card : Card) (settings : Dict Bytes)
    → Gives settings (output_loop delays os card settings)
unfolding output_loop
output_loop-Gives delays [] card settings = tt
output_loop-Gives delays (o ∷ os) card settings =
    Gives-bind settings (find_internal_link o delays.external_outputs) _ λ l.
      Gives-append settings (compensate l.delay_ps l output card settings)
        (output_loop delays os card settings) (compensate-Gives _ l _ card settings)
        (output_loop-Gives delays os card settings)

card_compensations-Gives :
    (card : Card) (settings : Dict Bytes) → Gives settings (card_compensations card settings)
unfolding card_compensations
card_compensations-Gives card settings =
    Gives-bind settings (init_internal_delays card.part) _ λ delays.
      Gives-three settings (input_part delays card.input card settings)
        (gnss_part delays card.gnss_input card settings)
        (output_loop delays card.outputs card settings)
        (input_part-Gives delays card.input card settings)
        (gnss_part-Gives delays card.gnss_input card settings)
        (output_loop-Gives delays card.outputs card settings)

-- Every delay compensation that is found carries the clock identity that the settings have for its
-- card.
pub find_delay_compensation-Gives :
    (cards : List Card) (settings : Dict Bytes)
    → Gives settings (find_delay_compensation cards settings)
unfolding find_delay_compensation
find_delay_compensation-Gives [] settings = tt
find_delay_compensation-Gives (card ∷ cards) settings =
    Gives-append settings (card_compensations card settings)
      (find_delay_compensation cards settings) (card_compensations-Gives card settings)
      (find_delay_compensation-Gives cards settings)

-- Where the compensations cannot be found, since a card's part, a connector or a clock identity is
-- unknown, the configuration change panics at the first pin, if the pins are there.
pub apply_delays_fault :
    (accepts : ℕ → ℤ → Bool) (p : Pin) (ps : List Pin) (cards : List Card) (settings : Dict Bytes)
    (e : Fault)
    → find_delay_compensation cards settings ≡ fault e
    → apply_delays accepts true (some (p ∷ ps)) cards settings ≡ ([], nil_panic)
unfolding apply_delays send_delay_compensation pin_loop
apply_delays_fault accepts p ps cards settings e h = rw h refl
