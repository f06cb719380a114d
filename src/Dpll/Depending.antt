-- ===== src/Dpll/Depending.antt =====
-- DependingStates and DpllSubscriber.Notify (pkg/dpll/dpll.go): the states of the processes that a
-- DPLL depends on.
use Prim.Native.String
use text.Mathlib.Text.{is_lt}
use np_linuxptp_daemon.Base.{
  ◌≡◌, refl, ap, ◌∙◌, ◌≢◌, ◌⊎◌, inl, inr, Bool, true, false, not, List, [], ◌∷◌, Option, none, some,
  arith, if◌then◌else◌, if_true, if_false, Bool-cases,
}
use np_linuxptp_daemon.Base.Int.{ℤ}
use np_linuxptp_daemon.Event.Types.{
  PtpState, no_state, freerun, holdover, locked, unknown, not_set, state_text, state_eq,
  EventSource, gnss, source_eq, source_eq_iff, source_eq_refl, state_eq_iff,
}
use np_linuxptp_daemon.Dpll.Config.{Dpll, Effect}
use np_linuxptp_daemon.Dpll.Decision.{state_decision}

-- The struct `DependingStates`.
pub record Depending : Type 0 where
  pub states : List (EventSource × PtpState)
  pub current_state : PtpState

-- `d.states[source]`, the zero value if there is none.
unfoldable pub state_of : EventSource → List (EventSource × PtpState) → PtpState
state_of s [] = no_state
state_of s ((k, v) ∷ m) = if source_eq k s then v else state_of s m

-- `d.states[source] = state`
unfoldable pub set_state :
    EventSource → PtpState → List (EventSource × PtpState) → List (EventSource × PtpState)
set_state s v [] = (s, v) ∷ []
set_state s v ((k, w) ∷ m) = if source_eq k s then (s, v) ∷ m else (k, w) ∷ set_state s v m

-- `<` on states compares their texts.
unfoldable pub text_ltb : PtpState → PtpState → Bool
text_ltb a b = is_lt (Prim.Native.String.compare (state_text a) (state_text b))

unfoldable pub lowest : PtpState → List (EventSource × PtpState) → PtpState
unfolding text_ltb
lowest low [] = low
lowest low ((k, v) ∷ m) = lowest (if text_ltb v low then v else low) m

-- `DependingStates.UpdateState`
unfoldable pub update_current : Depending → Depending
unfolding lowest
update_current d = record d { current_state = lowest freerun d.states }

-- What a notification leaves: the table, the DPLL, and what the DPLL does. `panicked` is the panic
-- of the decision.
pub data Notified : Type 0 where
  panicked : Notified
  notified : Depending → Dpll → List Effect → Notified

abbrev conclude : Depending → Option (Dpll × List Effect) → Notified
conclude m none = panicked
conclude m (some (d, effects)) = notified (update_current m) d effects

-- The branch of a new state in `Notify`.
unfoldable pub notify_new : ℤ → EventSource → PtpState → Depending → Dpll → Notified
notify_new now src state m d =
    let d' =
      if source_eq src gnss then record d { source_lost = not (state_eq state locked) } else d in
    conclude (record m { states = set_state src state m.states }) (state_decision now d')

-- `DpllSubscriber.Notify`, of a DPLL that is there.
unfoldable pub notify : ℤ → EventSource → PtpState → Depending → Dpll → Notified
notify now src state m d =
    if not d.is_monitoring
    then notified m d []
    else if state_eq (state_of src m.states) state
    then notified m d []
    else notify_new now src state m d

-- The states that are not above freerun in the order of their texts.
abbrev pub is_low : PtpState → Bool
is_low holdover = false
is_low locked = false
is_low _ = true

both_low :
    (b : Bool) (v low : PtpState)
    → is_low v ≡ true
    → is_low low ≡ true
    → is_low (if b then v else low) ≡ true
both_low true v low hv h = hv
both_low false v low hv h = h

low_step :
    (v low : PtpState) → is_low low ≡ true → is_low (if text_ltb v low then v else low) ≡ true
unfolding text_ltb
low_step no_state low h = both_low (text_ltb no_state low) no_state low refl h
low_step freerun low h = both_low (text_ltb freerun low) freerun low refl h
low_step unknown low h = both_low (text_ltb unknown low) unknown low refl h
low_step not_set low h = both_low (text_ltb not_set low) not_set low refl h
low_step holdover no_state h = refl
low_step holdover freerun h = refl
low_step holdover unknown h = refl
low_step holdover not_set h = refl
low_step holdover holdover h = cc
low_step holdover locked h = cc
low_step locked no_state h = refl
low_step locked freerun h = refl
low_step locked unknown h = refl
low_step locked not_set h = refl
low_step locked holdover h = cc
low_step locked locked h = cc

lowest-low :
    (low : PtpState) (m : List (EventSource × PtpState))
    → is_low low ≡ true
    → is_low (lowest low m) ≡ true
unfolding lowest
lowest-low low [] h = h
lowest-low low ((k, v) ∷ m) h = lowest-low (if text_ltb v low then v else low) m (low_step v low h)

-- The state kept for the depending processes is never locked nor in holdover, whatever they report:
-- the search for the lowest starts at freerun.
pub update_current-low :
    (d : Depending)
    → ((update_current d).current_state ≢ locked) × ((update_current d).current_state ≢ holdover)
unfolding update_current
update_current-low d =
    let low = lowest-low freerun d.states refl in (λ e. cc (low, e), λ e. cc (low, e))

-- A notification of the state that the table has already, or to a DPLL that is not monitored,
-- changes nothing.
pub notify_unchanged :
    (now : ℤ) (source : EventSource) (state : PtpState) (m : Depending) (d : Dpll)
    → (d.is_monitoring ≡ false) ⊎ (state_of source m.states ≡ state)
    → notify now source state m d ≡ notified m d []
unfolding notify
notify_unchanged now src state m d (inl off) = if_true _ _ (ap not off)
notify_unchanged now src state m d (inr same) = elim (Bool-cases d.is_monitoring) [
  | inl on ↦ if_false _ _ (ap not on) ∙ if_true _ _ ((state_eq_iff _ state).1 same)
  | inr off ↦ if_true _ _ (ap not off)
]

state_of-set_state :
    (s q : EventSource) (v : PtpState) (m : List (EventSource × PtpState))
    → state_of q (set_state s v m) ≡ (if source_eq s q then v else state_of q m)
unfolding state_of set_state
state_of-set_state s q v [] = refl
state_of-set_state s q v ((k, w) ∷ m) =
    ground
      (arith, source_eq_iff k s, source_eq_iff k q, source_eq_iff s q, state_of-set_state s q v m)

state_ne : (s t : PtpState) → s ≢ t → state_eq s t ≡ false
state_ne s t ne = ground (arith, state_eq_iff s t)

-- A new state of GNSS reaches a monitored DPLL: its source is lost exactly when the state is not
-- locked, the decision is taken on that, and the table has the new state.
pub notify_gnss :
    (now : ℤ) (state : PtpState) (m : Depending) (d : Dpll) {r : Dpll × List Effect}
    → d.is_monitoring ≡ true
    → state_of gnss m.states ≢ state
    → state_decision now (record d { source_lost = not (state_eq state locked) }) ≡ some r
    → (m' : Depending) × (notify now gnss state m d ≡ notified m' r.0 r.1)
      × (state_of gnss m'.states ≡ state)
unfolding notify notify_new update_current
notify_gnss now state m d {r} monitored fresh decision = (
  update_current (record m { states = set_state gnss state m.states }),
  if_false _ _ (ap not monitored)
      ∙ if_false _ _ (state_ne _ state fresh)
      ∙ rw (source_eq_refl gnss, decision) refl,
  state_of-set_state gnss gnss state m.states ∙ if_true _ _ (source_eq_refl gnss),
)
