-- ===== src/Event/Stats/Details.antt =====
-- Data.AddEvent and Data.GetDataDetails (pkg/event/stats.go): the entries of
-- the interfaces.
use np_linuxptp_daemon.Base.{
  ℕ, ◌≡◌, refl, ◌∙◌, inl, inr, Bool, true, false, not, ◌&&◌, List, [], ◌∷◌, ◌++◌, Option, none,
  some, String, arith, str_eq, str_eq_iff, if◌then◌else◌, Bool-cases, Option-cases,
}
use np_linuxptp_daemon.Base.Int.{◌<ℤ◌, leb_ℤ}
use np_linuxptp_daemon.Event.Types.{Event, state_eq}
use np_linuxptp_daemon.Event.Stats.{
  DataDetails, Data, get_details, touch, add_loop, new_details, add_event,
}

-- What AddEvent stores for the event's interface, given what it finds.
abbrev pub stored : Bool → ℕ → Event → Option DataDetails → DataDetails
stored subscribed now e none = new_details now e
stored subscribed now e (some dd) = (touch subscribed now e dd).0

add_loop-none :
    (subscribed : Bool) (now : ℕ) (e : Event) (ds : List DataDetails)
    → add_loop subscribed now e ds ≡ none
    → get_details e.iface ds ≡ none
unfolding add_loop get_details
add_loop-none subscribed now e [] h = refl
add_loop-none subscribed now e (dd ∷ ds) h = ground (arith, add_loop-none subscribed now e ds)

get_details-append :
    (j : String) (n : DataDetails) (ds : List DataDetails)
    → get_details j ds ≡ none
    → get_details j (ds ++ n ∷ []) ≡ (if str_eq n.iface j then some n else none)
unfolding get_details
get_details-append j n [] h = refl
get_details-append j n (dd ∷ ds) h = ground (arith, get_details-append j n ds)

get_details-append_ne :
    (j : String) (n : DataDetails) (ds : List DataDetails)
    → str_eq n.iface j ≡ false
    → get_details j (ds ++ n ∷ []) ≡ get_details j ds
unfolding get_details
get_details-append_ne j n [] h = ground arith
get_details-append_ne j n (dd ∷ ds) h = ground (arith, get_details-append_ne j n ds)

get_details-add_loop :
    (subscribed : Bool) (now : ℕ) (e : Event) (j : String) (ds : List DataDetails)
    {r : List DataDetails × Bool}
    → add_loop subscribed now e ds ≡ some r
    → get_details j r.0 ≡ (
        if str_eq e.iface j
        then some (stored subscribed now e (get_details e.iface ds))
        else get_details j ds)
unfolding add_loop get_details touch
get_details-add_loop subscribed now e j [] h = cc
get_details-add_loop subscribed now e j (dd ∷ ds) {r} h =
    elim (Option-cases (add_loop subscribed now e ds)) [
      | inl n ↦
          ground (arith, str_eq_iff dd.iface e.iface, str_eq_iff dd.iface j, str_eq_iff e.iface j)
      | inr (r', p) ↦ ground (
        arith,
        str_eq_iff dd.iface e.iface,
        str_eq_iff dd.iface j,
        str_eq_iff e.iface j,
        get_details-add_loop subscribed now e j ds p,
      )
    ]

get_details-new :
    (subscribed : Bool) (now : ℕ) (e : Event) (d : Data) (j : String)
    → get_details e.iface d.details ≡ none
    → get_details j (d.details ++ new_details now e ∷ []) ≡ (
        if str_eq e.iface j
        then some (stored subscribed now e (get_details e.iface d.details))
        else get_details j d.details)
unfolding new_details
get_details-new subscribed now e d j absent = elim (Bool-cases (str_eq e.iface j)) [
  | inl same ↦
      let at : e.iface ≡ j = (str_eq_iff e.iface j).0 same in
      rw (same, absent)
        (get_details-append j (new_details now e) d.details (rw at at absent) ∙ rw same)
  | inr other ↦ rw other (get_details-append_ne j (new_details now e) d.details other)
]

-- Whether an event changes what is stored for its interface, as far as the subscribers can see.
abbrev pub changes : Event → Option DataDetails → Bool
changes e none = true
changes e (some dd) = leb_ℤ dd.time e.time && not (state_eq dd.state e.state)

add_loop-told :
    (subscribed : Bool) (now : ℕ) (e : Event) (ds : List DataDetails) {r : List DataDetails × Bool}
    → add_loop subscribed now e ds ≡ some r
    → r.1 ≡ (subscribed && changes e (get_details e.iface ds))
unfolding add_loop get_details touch
add_loop-told subscribed now e [] h = cc
add_loop-told subscribed now e (dd ∷ ds) {r} h =
    elim (Option-cases (add_loop subscribed now e ds)) [
      | inl n ↦ ground arith
      | inr (r', p) ↦ ground (arith, add_loop-told subscribed now e ds p)
    ]

add_loop_stale :
    (subscribed : Bool) (now : ℕ) (e : Event) (ds : List DataDetails) {dd : DataDetails}
    → get_details e.iface ds ≡ some dd
    → e.time <ℤ dd.time
    → add_loop subscribed now e ds ≡ some (ds, false)
unfolding add_loop get_details touch
add_loop_stale subscribed now e [] h old = cc
add_loop_stale subscribed now e (x ∷ ds) {dd} h old = elim (Bool-cases (str_eq x.iface e.iface)) [
  | inl here ↦ ground arith
  | inr away ↦ ground (arith, add_loop_stale subscribed now e ds {dd = dd})
]

-- No interface has two entries.
abbrev pub UniqueIfaces : List DataDetails → Type 0
UniqueIfaces [] = Unit
UniqueIfaces (d ∷ ds) = (get_details d.iface ds ≡ none) × UniqueIfaces ds

append-UniqueIfaces :
    (n : DataDetails) (ds : List DataDetails)
    → UniqueIfaces ds
    → get_details n.iface ds ≡ none
    → UniqueIfaces (ds ++ n ∷ [])
unfolding get_details
append-UniqueIfaces n [] u h = (refl, tt)
append-UniqueIfaces n (d ∷ ds) u h = ground (
  arith,
  str_eq_iff d.iface n.iface,
  str_eq_iff n.iface d.iface,
  append-UniqueIfaces n ds u.1,
  get_details-append_ne d.iface n ds,
)

add_loop-UniqueIfaces :
    (subscribed : Bool) (now : ℕ) (e : Event) (ds : List DataDetails) {r : List DataDetails × Bool}
    → UniqueIfaces ds
    → add_loop subscribed now e ds ≡ some r
    → UniqueIfaces r.0
unfolding add_loop touch
add_loop-UniqueIfaces subscribed now e [] u h = cc
add_loop-UniqueIfaces subscribed now e (d ∷ ds) {r} u h =
    elim (Option-cases (add_loop subscribed now e ds)) [
      | inl n ↦ ground arith
      | inr (r', p) ↦ ground (
        arith,
        str_eq_iff d.iface e.iface,
        str_eq_iff e.iface d.iface,
        add_loop-UniqueIfaces subscribed now e ds u.1 p,
        get_details-add_loop subscribed now e d.iface ds p,
      )
    ]

-- After AddEvent the entry of the event's interface is the stored one (made anew where there was
-- none, overwritten where the event is not older, kept where it is), and every other interface has
-- the entry that it had.
pub get_details-add_event :
    (subscribed : Bool) (now : ℕ) (e : Event) (d : Data) (j : String)
    → get_details j (add_event subscribed now e d).0.details ≡ (
        if str_eq e.iface j
        then some (stored subscribed now e (get_details e.iface d.details))
        else get_details j d.details)
unfolding add_event
get_details-add_event subscribed now e d j =
    elim (Option-cases (add_loop subscribed now e d.details)) [
      | inl p ↦ rw p (get_details-new subscribed now e d j (add_loop-none subscribed now e _ p))
      | inr (r, p) ↦ rw p (get_details-add_loop subscribed now e j d.details p)
    ]

-- An event older than the entry of its interface changes nothing, and nobody is notified.
pub add_event_stale :
    (subscribed : Bool) (now : ℕ) (e : Event) (d : Data) {dd : DataDetails}
    → get_details e.iface d.details ≡ some dd
    → e.time <ℤ dd.time
    → add_event subscribed now e d ≡ (d, false)
unfolding add_event
add_event_stale subscribed now e d found old =
    rw (add_loop_stale subscribed now e d.details found old)

-- The subscribers are notified exactly when there are some and either the interface is new or an
-- event that is not older than its entry brings another state.
pub add_event-told :
    (subscribed : Bool) (now : ℕ) (e : Event) (d : Data)
    → (add_event subscribed now e d).1 ≡ (subscribed && changes e (get_details e.iface d.details))
unfolding add_event
add_event-told subscribed now e d = elim (Option-cases (add_loop subscribed now e d.details)) [
  | inl p ↦ rw (p, add_loop-none subscribed now e _ p) (ground arith)
  | inr (r, p) ↦ rw p (add_loop-told subscribed now e d.details p)
]

-- AddEvent keeps one entry for each interface.
pub add_event-UniqueIfaces :
    (subscribed : Bool) (now : ℕ) (e : Event) (d : Data)
    → UniqueIfaces d.details
    → UniqueIfaces (add_event subscribed now e d).0.details
unfolding add_event new_details
add_event-UniqueIfaces subscribed now e d u =
    elim (Option-cases (add_loop subscribed now e d.details)) [
      | inl p ↦
          rw p (
            append-UniqueIfaces (new_details now e) d.details u
              (add_loop-none subscribed now e _ p))
      | inr (r, p) ↦ rw p (add_loop-UniqueIfaces subscribed now e d.details u p)
    ]

pub add_event-name :
    (subscribed : Bool) (now : ℕ) (e : Event) (d : Data)
    → (add_event subscribed now e d).0.process_name ≡ d.process_name
unfolding add_event
add_event-name subscribed now e d = elim (Option-cases (add_loop subscribed now e d.details)) [
  | inl p ↦ rw p
  | inr (r, p) ↦ rw p
]
