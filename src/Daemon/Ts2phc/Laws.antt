-- ===== src/Daemon/Ts2phc/Laws.antt =====
-- What the reports of a process depend on, and which changes of the clock class are announced.
use np_linuxptp_daemon.Base.{
  ℕ, ◌≡◌, refl, ap, inl, inr, Bool, List, [], ◌∷◌, map, if◌then◌else◌, Bool-cases,
}
use np_linuxptp_daemon.Daemon.Ts2phc.{
  ClockProcess, ClassAnswer, fails, unmatched, unparsed, answers, class_change, update_clock_class,
  class_changes,
}

module _ (float_eq : ℕ → ℕ → Bool) where
  -- The classes that differ from the one before, from a first one.
  abbrev pub changed : ℕ → List ClassAnswer → List ℕ
  changed c [] = []
  changed c (answers d ∷ rest) = if float_eq d c then changed c rest else d ∷ changed d rest
  changed c (fails ∷ rest) = changed c rest
  changed c (unmatched ∷ rest) = changed c rest
  changed c (unparsed ∷ rest) = changed c rest

  -- Asked any number of times, a process announces exactly the clock classes that differ from the
  -- one answered before, the first from the one it had; answers without a class are passed over.
  pub class_changes-eq-changed :
      (rest : List ClassAnswer) (p : ClockProcess)
      → class_changes float_eq rest p
        ≡ map (class_change p.name p.config_name) (changed p.parent_clock_class rest)
  unfolding class_changes update_clock_class
  class_changes-eq-changed [] p = refl
  class_changes-eq-changed (fails ∷ rest) p = class_changes-eq-changed rest p
  class_changes-eq-changed (unmatched ∷ rest) p = class_changes-eq-changed rest p
  class_changes-eq-changed (unparsed ∷ rest) p = class_changes-eq-changed rest p
  class_changes-eq-changed (answers d ∷ rest) p =
      elim (Bool-cases (float_eq d p.parent_clock_class)) [
        | inl same ↦ rw same (class_changes-eq-changed rest p)
        | inr other ↦ rw other (
            ap (λ l. class_change p.name p.config_name d ∷ l)
              (class_changes-eq-changed rest (record p { parent_clock_class = d })))
      ]
