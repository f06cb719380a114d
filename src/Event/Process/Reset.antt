-- ===== src/Event/Process/Reset.antt =====
-- The reset branch of ProcessEvents (pkg/event/event.go): the loop that removes a process from a
-- slice while it ranges over it.
use mathlib.Core.List.{append_assoc}
use native.Mathlib.Nat.{zero-add, suc-add}
use np_linuxptp_daemon.Base.{
  ℕ, zero, suc, ◌+◌, ◌-◌, ◌<◌, ◌≡◌, refl, sym, ap, ◌∙◌, inl, inr, true, false, List, [], ◌∷◌, ◌++◌,
  none, some, arith, if◌then◌else◌, All, Bool-cases, ltb, length, get_elem?, take, length-append,
}
use np_linuxptp_daemon.Event.Types.{EventSource, source_eq, source_eq_iff}
use np_linuxptp_daemon.Event.Stats.{Data}
use np_linuxptp_daemon.Event.Handler.{find_data}
use np_linuxptp_daemon.Event.Process.{shift_down, reset_round, reset_loop, reset_slice}

-- The slice without the entry of a process.
abbrev pub remove : EventSource → List Data → List Data
remove p [] = []
remove p (d ∷ ds) = if source_eq d.process_name p then ds else d ∷ remove p ds

-- No process has two entries.
abbrev pub UniqueProcesses : List Data → Type 0
UniqueProcesses [] = Unit
UniqueProcesses (d ∷ ds) = (find_data d.process_name ds ≡ none) × UniqueProcesses ds

abbrev Absent : EventSource → List Data → Type 0
Absent p = All (λ d. source_eq d.process_name p ≡ false)

find_data-Absent : (p : EventSource) (ds : List Data) → find_data p ds ≡ none → Absent p ds
unfolding find_data
find_data-Absent p [] h = tt
find_data-Absent p (d ∷ ds) h = elim (Bool-cases (source_eq d.process_name p)) [
  | inl same ↦ cc
  | inr other ↦ (other, find_data-Absent p ds (ground arith))
]

Absent-append :
    (p : EventSource) (xs ys : List Data) → Absent p xs → Absent p ys → Absent p (xs ++ ys)
Absent-append p [] ys hx hy = hy
Absent-append p (x ∷ xs) ys hx hy = (hx.0, Absent-append p xs ys hx.1 hy)

reset_round-Absent :
    (p : EventSource) (i j m : ℕ) (b c : List Data)
    → Absent p c
    → reset_round p i (get_elem? c j) (b, m) ≡ (b, m)
unfolding reset_round
reset_round-Absent p i j m b [] h = refl
reset_round-Absent p i zero m b (d ∷ c) h = rw h.0
reset_round-Absent p i (suc j) m b (d ∷ c) h = reset_round-Absent p i j m b c h.1

reset_loop-Absent :
    (p : EventSource) (k i m : ℕ) (b : List Data) → Absent p b → reset_loop p k i (b, m) ≡ (b, m)
unfolding reset_loop
reset_loop-Absent p zero i m b h = refl
reset_loop-Absent p (suc k) i m b h =
    rw (reset_round-Absent p i i m b b h) (reset_loop-Absent p k (suc i) m b h)

get_elem?-middle :
    (xs : List Data) (d : Data) (ys : List Data) → get_elem? (xs ++ d ∷ ys) (length xs) ≡ some d
get_elem?-middle [] d ys = refl
get_elem?-middle (x ∷ xs) d ys = get_elem?-middle xs d ys

take-append :
    (xs : List Data) (n : ℕ) (ys : List Data) → take (length xs + n) (xs ++ ys) ≡ xs ++ take n ys
take-append [] n ys = rw (zero-add n)
take-append (x ∷ xs) n ys = rw (suc-add (length xs) n) (ap (λ r. x ∷ r) (take-append xs n ys))

shift_down-append :
    (xs : List Data) (m : ℕ) (ys : List Data)
    → shift_down (length xs) (length xs + m) (xs ++ ys) ≡ xs ++ shift_down 0 m ys
unfolding shift_down
shift_down-append [] m ys = rw (zero-add m)
shift_down-append (x ∷ xs) m ys =
    rw (suc-add (length xs) m) (ap (λ r. x ∷ r) (shift_down-append xs m ys))

take-shift_down :
    (d : Data) (ys : List Data) → take (length ys) (shift_down 0 (suc (length ys)) (d ∷ ys)) ≡ ys
unfolding shift_down
take-shift_down d [] = refl
take-shift_down d (y ∷ ys) = ap (λ r. y ∷ r) (take-shift_down y ys)

shift_down-Absent :
    (p : EventSource) (d : Data) (y : Data) (ys : List Data)
    → Absent p (y ∷ ys)
    → Absent p (shift_down 0 (suc (length (y ∷ ys))) (d ∷ y ∷ ys))
unfolding shift_down
shift_down-Absent p d y [] h = (h.0, h)
shift_down-Absent p d y (z ∷ ys) h = (h.0, shift_down-Absent p y z ys h.1)

-- The rounds after the removal find the process nowhere.
after_removal :
    (p : EventSource) (d : Data) (xs ys : List Data) (i : ℕ)
    → Absent p xs
    → Absent p ys
    → let (b, m) =
        reset_loop p
          (length ys)
          i
          (xs ++ shift_down 0 (suc (length ys)) (d ∷ ys), length xs + length ys) in
      take m b ≡ xs ++ ys
unfolding reset_loop
after_removal p d xs [] i hx hy = take-append xs 0 (shift_down 0 1 (d ∷ []))
after_removal p d xs (y ∷ ys) i hx hy =
    let array = xs ++ shift_down 0 (suc (length (y ∷ ys))) (d ∷ y ∷ ys) in
    rw
      (reset_loop-Absent p (length (y ∷ ys)) i (length xs + length (y ∷ ys)) array
        (Absent-append p xs _ hx (shift_down-Absent p d y ys hy)))
      (take-append xs (length (y ∷ ys)) _ ∙ ap (λ r. xs ++ r) (take-shift_down d (y ∷ ys)))

sub_suc : (a b : ℕ) → a + suc b - 1 ≡ a + b
sub_suc a b = omega arith

lt→ltb : (a b : ℕ) → a < b → ltb a b ≡ true
lt→ltb a b h = ground arith

-- The round that meets the process.
reset_round_hit :
    (p : EventSource) (d : Data) (xs ys : List Data)
    → source_eq d.process_name p ≡ true
    → reset_round p (length xs) (some d) (xs ++ d ∷ ys, length xs + suc (length ys))
      ≡ (xs ++ shift_down 0 (suc (length ys)) (d ∷ ys), length xs + length ys)
unfolding reset_round
reset_round_hit p d xs ys same = rw (
  same,
  lt→ltb (length xs) (length xs + suc (length ys)) (omega arith),
  shift_down-append xs (suc (length ys)) (d ∷ ys),
  sub_suc (length xs) (length ys),
)

length-snoc : (xs : List Data) (d : Data) → length (xs ++ d ∷ []) ≡ suc (length xs)
length-snoc xs d = omega (arith, length-append {0} xs (d ∷ []))

shift_one :
    (xs : List Data) (d : Data) (ys : List Data)
    → length xs + suc (length ys) ≡ length (xs ++ d ∷ []) + length ys
shift_one xs d ys = omega (arith, length-snoc xs d)

reset_round_miss :
    (p : EventSource) (i : ℕ) (d : Data) (s : List Data × ℕ)
    → source_eq d.process_name p ≡ false
    → reset_round p i (some d) s ≡ s
unfolding reset_round
reset_round_miss p i d (b, m) other = rw other

reset_loop_step :
    (p : EventSource) (k i : ℕ) (d : Data) (s t : List Data × ℕ)
    → get_elem? s.0 i ≡ some d
    → reset_round p i (some d) s ≡ t
    → reset_loop p (suc k) i s ≡ reset_loop p k (suc i) t
unfolding reset_loop
reset_loop_step p k i d s t at round = rw (at, round)

-- The state of the loop before the index `length xs` while nothing is removed.
abbrev ranged : List Data → List Data → List Data × ℕ
ranged xs ys = (xs ++ ys, length xs + length ys)

abbrev finish : List Data × ℕ → List Data
finish s = take s.1 s.0

moved :
    (p : EventSource) (xs : List Data) (d : Data) (ys : List Data)
    → finish (reset_loop p (length ys) (suc (length xs)) (ranged xs (d ∷ ys)))
      ≡ finish (reset_loop p (length ys) (length (xs ++ d ∷ [])) (ranged (xs ++ d ∷ []) ys))
moved p xs d ys =
    let array : xs ++ d ∷ ys ≡ (xs ++ d ∷ []) ++ ys = sym (append_assoc xs (d ∷ []) ys) in
    cc (array, length-snoc xs d, shift_one xs d ys)

reset_loop_lem :
    (p : EventSource) (xs ys : List Data)
    → Absent p xs
    → UniqueProcesses ys
    → let (b, m) = reset_loop p (length ys) (length xs) (xs ++ ys, length xs + length ys) in
      take m b ≡ xs ++ remove p ys
unfolding reset_loop
reset_loop_lem p xs [] hx u = take-append xs 0 []
reset_loop_lem p xs (d ∷ ys) hx u = elim (Bool-cases (source_eq d.process_name p)) [
  | inl same ↦
      let name : d.process_name ≡ p = (source_eq_iff _ _).0 same in
      rw same (
        ap finish (
          reset_loop_step p (length ys) (length xs) d (ranged xs (d ∷ ys))
            (xs ++ shift_down 0 (suc (length ys)) (d ∷ ys), length xs + length ys)
            (get_elem?-middle xs d ys) (reset_round_hit p d xs ys same))
        ∙ after_removal p d xs ys (suc (length xs)) hx (find_data-Absent p ys (rw name at u.0)))
  | inr other ↦ rw other (
      ap finish (
        reset_loop_step p (length ys) (length xs) d (ranged xs (d ∷ ys)) (ranged xs (d ∷ ys))
          (get_elem?-middle xs d ys) (reset_round_miss p (length xs) d (ranged xs (d ∷ ys)) other))
      ∙ moved p xs d ys
      ∙ reset_loop_lem p (xs ++ d ∷ []) ys (Absent-append p xs (d ∷ []) hx (other, tt)) u.1
      ∙ append_assoc xs (d ∷ []) (remove p ys))
]

-- Where no process has two entries, the loop that removes a process while ranging over the slice
-- removes its entry and nothing else.
pub reset_slice-eq-remove :
    (p : EventSource) (ds : List Data) → UniqueProcesses ds → reset_slice p ds ≡ remove p ds
unfolding reset_slice
reset_slice-eq-remove p ds u = rw (zero-add (length ds)) at (reset_loop_lem p [] ds tt u)
