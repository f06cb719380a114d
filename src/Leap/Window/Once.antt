-- ===== src/Leap/Window/Once.antt =====
-- The ticks of Run and the commands to pmc (pkg/leap/leap-file.go).
use np_linuxptp_daemon.Base.{
  ℕ, ◌+◌, ◌≤◌, ◌≡◌, refl, sym, ap, ◌∙◌, ◌≢◌, Bool, true, false, ◌⊎◌, inl, inr, Bool-cases,
  Option-cases, List, [], ◌∷◌, Option, none, some, String, arith, if◌then◌else◌, All,
}
use np_linuxptp_daemon.Base.Int.{ℤ, pos, ◌-ℤ◌, ltb_ℤ}
use np_linuxptp_daemon.Base.Map.{Map}
use np_linuxptp_daemon.Strings.{Bytes}
use np_linuxptp_daemon.Leap.File.{LeapEvent}
use np_linuxptp_daemon.Leap.Manager.{Manager, last_event, update_leap_configmap}
use np_linuxptp_daemon.Event.ClockClass.{Settings}
use np_linuxptp_daemon.Leap.Window.{
  Around, Tick, is_leap_in_window, window_start, window_end, with_flags, send_settings, send_leap,
  leap_event_sent, in_window_tick, window_at, retried, tick,
}

-- The commands that pmc took in ticks.
abbrev count : Option Settings → ℕ
count none = 0
count (some g) = 1

abbrev add_count : Option Settings → Option (Manager × ℕ) → Option (Manager × ℕ)
add_count taken none = none
add_count taken (some (m, n)) = some (m, count taken + n)

abbrev then_tick : Option Tick → (Manager → Option (Manager × ℕ)) → Option (Manager × ℕ)
then_tick none k = none
then_tick (some t) k = add_count t.taken (k t.manager)

-- The manager after ticks one after the other, and how many commands pmc took.
unfoldable pub ticks : String → List Around → Manager → Option (Manager × ℕ)
ticks node [] m = some (m, 0)
ticks node (a ∷ rest) m = then_tick (tick node a m) (ticks node rest)

-- The tick is in the window of the file's last event.
abbrev pub IsInWindow : Manager → Around → Type 0
IsInWindow m a = is_leap_in_window m a.now window_start window_end ≡ some true

-- What a tick in the window leaves of the file and the flag.
abbrev Sound : Manager → Tick → Type 0
Sound m t =
    (t.manager.leap_file ≡ m.leap_file) × ((t.taken ≡ none) ⊎ (t.manager.pmc_leap_sent ≡ true))

if-Sound :
    (b : Bool) (m : Manager) (t u : Tick) → Sound m t → Sound m u → Sound m (if b then t else u)
if-Sound true m t u h k = h
if-Sound false m t u h k = k

send_settings-Sound :
    (m : Manager) (works : Bool) (g : Settings) → Sound m (send_settings m works g)
send_settings-Sound m false g = (refl, inl refl)
send_settings-Sound m true g = (refl, inr refl)

send_leap-Sound :
    (m : Manager) (diff : ℤ) (works : Bool) (g : Settings) → Sound m (send_leap m diff works g)
unfolding send_leap
send_leap-Sound m diff works g =
    if-Sound (ltb_ℤ (pos 0) diff) m _ _ (send_settings-Sound m works (with_flags g false true)) (
      if-Sound (ltb_ℤ diff (pos 0)) m _ _ (send_settings-Sound m works (with_flags g true false))
        (refl, inr refl))

leap_event_sent-Sound :
    (m : Manager) (works : Bool) (e : LeapEvent) (g : Option Settings)
    → (t : Tick) × (leap_event_sent m works (some e) g ≡ some t) × Sound m t
leap_event_sent-Sound m works e none =
    (record { manager = m; taken = none }, refl, (refl, inl refl))
leap_event_sent-Sound m works e (some g) = (
  send_leap m (e.leap_sec -ℤ g.time_properties.current_utc_offset) works g,
  refl,
  send_leap-Sound m _ works g,
)

-- With what a tick leaves where the flag was set before.
abbrev IsQuiet : Manager → Tick → Type 0
IsQuiet m t = m.pmc_leap_sent ≡ true → (t.taken ≡ none) × (t.manager.pmc_leap_sent ≡ true)

in_window_tick-Sound :
    (a : Around) (m : Manager) (e : LeapEvent)
    → last_event m.leap_file.leap_events ≡ some e
    → (t : Tick) × (in_window_tick a m (some true) ≡ some t) × Sound m t × IsQuiet m t
in_window_tick-Sound a m e last =
    let step = leap_event_sent m a.set_works (last_event m.leap_file.leap_events) a.settings in
    elim (Bool-cases m.pmc_leap_sent) [
      | inl sent ↦ (
        record { manager = m; taken = none },
        ap (λ b. if b then some (record { manager = m; taken = none }) else step) sent,
        (refl, inl refl),
        λ h. (refl, h),
      )
      | inr unsent ↦
          let (t, done, sound) = leap_event_sent-Sound m a.set_works e a.settings in
          (
            t,
            ap (λ b. if b then some (record { manager = m; taken = none }) else step) unsent
                ∙ ap (λ o. leap_event_sent m a.set_works o a.settings) last
                ∙ done,
            sound,
            λ h. cc,
          )
    ]

update_leap_configmap_keeps :
    (node : String) (cm : Option (Map Bytes)) (accepts : Bool) (m : Manager)
    → ((update_leap_configmap node cm accepts m).0.leap_file ≡ m.leap_file)
      × ((update_leap_configmap node cm accepts m).0.pmc_leap_sent ≡ m.pmc_leap_sent)
unfolding update_leap_configmap
update_leap_configmap_keeps node none accepts m = (refl, refl)
update_leap_configmap_keeps node (some cm) false m = (refl, refl)
update_leap_configmap_keeps node (some cm) true m = (refl, refl)

either_keeps :
    (b : Bool) (m n : Manager)
    → (n.leap_file ≡ m.leap_file) × (n.pmc_leap_sent ≡ m.pmc_leap_sent)
    → ((if b then n else m).leap_file ≡ m.leap_file)
      × ((if b then n else m).pmc_leap_sent ≡ m.pmc_leap_sent)
either_keeps true m n h = h
either_keeps false m n h = (refl, refl)

retried_keeps :
    (node : String) (a : Around) (m : Manager)
    → ((retried node a m).leap_file ≡ m.leap_file)
      × ((retried node a m).pmc_leap_sent ≡ m.pmc_leap_sent)
retried_keeps node a m =
    either_keeps m.retry_update m _ (update_leap_configmap_keeps node a.cm a.accepts m)

none-ne-some : (x : Bool) → none ≢ some x
none-ne-some x = λ h. cc

window-last :
    (m : Manager) (a : Around)
    → IsInWindow m a
    → (e : LeapEvent) × (last_event m.leap_file.leap_events ≡ some e)
unfolding is_leap_in_window
window-last m a inside = elim (Option-cases (last_event m.leap_file.leap_events)) [
  | inl h ↦
      absurd (none-ne-some true (sym (ap (window_at a.now window_start window_end) h) ∙ inside))
  | inr (e, h) ↦ (e, h)
]

-- A tick in the window returns, keeps the file, and sends nothing where the flag is set.
tick_in_window :
    (node : String) (a : Around) (m : Manager)
    → IsInWindow m a
    → (t : Tick) × (tick node a m ≡ some t) × Sound m t × IsQuiet m t
unfolding tick is_leap_in_window
tick_in_window node a m inside =
    let n = retried node a m in
    let (file, flag) = retried_keeps node a m in
    let (e, last) = window-last m a inside in
    let last' : last_event n.leap_file.leap_events ≡ some e =
      ap (λ l. last_event l.leap_events) file ∙ last in
    let (t, done, sound, quiet) = in_window_tick-Sound a n e last' in
    let inside' : is_leap_in_window n a.now window_start window_end ≡ some true =
      ap (λ l. window_at a.now window_start window_end (last_event l.leap_events)) file ∙ inside in
    (t, ap (in_window_tick a n) inside' ∙ done, (sound.0 ∙ file, sound.1), λ h. quiet (flag ∙ h))

IsInWindow-same :
    (m n : Manager) (around : List Around)
    → n.leap_file ≡ m.leap_file
    → All (IsInWindow m) around
    → All (IsInWindow n) around
unfolding is_leap_in_window
IsInWindow-same m n [] file h = tt
IsInWindow-same m n (a ∷ around) file h = (
  ap (λ l. window_at a.now window_start window_end (last_event l.leap_events)) file ∙ h.0,
  IsInWindow-same m n around file h.1,
)

count_small : (taken : Option Settings) → count taken ≤ 1
count_small none = omega arith
count_small (some g) = omega arith

count-zero :
    (taken : Option Settings) {sent : Bool} {k : ℕ}
    → ((taken ≡ none) ⊎ (sent ≡ true))
    → (sent ≡ true → k ≡ 0)
    → (count taken ≡ 0) ⊎ (k ≡ 0)
count-zero taken (inl h) zero = inl (ap count h)
count-zero taken (inr h) zero = inr (zero h)

sum_zero : {a b : ℕ} → a ≡ 0 → b ≡ 0 → a + b ≡ 0
sum_zero h k = omega arith

-- As long as the ticks are in the window of the last event, none fails and pmc takes at most one
-- command, and none at all where the flag is set at the start.
pub ticks_once :
    (node : String) (around : List Around) (m : Manager)
    → All (IsInWindow m) around
    → (n : Manager) × (k : ℕ) × (ticks node around m ≡ some (n, k))
      × (k ≤ 1)
      × (m.pmc_leap_sent ≡ true → k ≡ 0)
unfolding ticks
ticks_once node [] m h = (m, 0, refl, omega arith, λ sent. refl)
ticks_once node (a ∷ around) m h =
    let (t, done, sound, quiet) = tick_in_window node a m h.0 in
    let (n, k, rest, small, none_sent) =
      ticks_once node around t.manager (IsInWindow-same m t.manager around sound.0 h.1) in
    let taken_or : (count t.taken ≡ 0) ⊎ (k ≡ 0) = count-zero t.taken sound.1 none_sent in
    (
      n,
      count t.taken + k,
      ap (λ o. then_tick o (ticks node around)) done ∙ ap (add_count t.taken) rest,
      ground (arith, count_small t.taken),
      λ sent. let (untaken, still) = quiet sent in sum_zero (ap count untaken) (none_sent still),
    )
