-- ===== src/Addons/Vpd/Ends.antt =====
-- Which files ParseVpd comes to an end on.
use np_linuxptp_daemon.Base.{
  ℕ, zero, suc, ◌+◌, ◌-◌, ◌%◌, ◌^◌, ◌≤◌, ◌<◌, ◌≡◌, refl, ◌≢◌, ◌⊎◌, inl, inr, false, [], ◌∷◌, some,
  arith, ltb, length, take, drop, ◌==◌, ◌++◌, length-append, Bool-cases, Option-cases,
}
use np_linuxptp_daemon.Strings.{Bytes}
use np_linuxptp_daemon.Strings.Dict.{Dict}
use np_linuxptp_daemon.Addons.Vpd.{
  Vpd, Outcome, done, panics, runs_on, slice, block_entry, parse_vpd_block, read_block,
  assign_block, file_block, with_block, advance, parse_vpd,
}

pub length-drop : (n : ℕ) (s : Bytes) → length (drop n s) ≡ length s - n
length-drop zero s = omega arith
length-drop (suc n) [] = omega arith
length-drop (suc n) (c ∷ s) = omega (arith, length-drop n s)

block_entry-lt :
    (s behind : Bytes) (kw text rest : Bytes)
    → block_entry s behind ≡ some (kw, text, rest)
    → length rest < length s
unfolding block_entry slice
block_entry-lt [] behind kw text rest h = absurd (ground (arith, h))
block_entry-lt (k1 ∷ []) behind kw text rest h = absurd (ground (arith, h))
block_entry-lt (k1 ∷ k2 ∷ []) behind kw text rest h = absurd (ground (arith, h))
block_entry-lt (k1 ∷ k2 ∷ ln ∷ s) behind kw text rest h = ground (arith, h, length-drop ln s)

parse_vpd_block-ends :
    (fuel : ℕ) (s behind : Bytes) (rv : Dict Bytes)
    → length s < fuel
    → parse_vpd_block fuel s behind rv ≢ runs_on
unfolding parse_vpd_block
parse_vpd_block-ends zero s behind rv h = absurd (omega (arith, h))
parse_vpd_block-ends (suc fuel) [] behind rv h = λ e. ground (arith, e)
parse_vpd_block-ends (suc fuel) (c ∷ s) behind rv h =
    elim (Option-cases (block_entry (c ∷ s) behind)) [
      | inl e ↦ rw (e, parse_vpd_block) (λ e. ground (arith, e))
      | inr ((kw, text, rest), e) ↦
          rw (e, parse_vpd_block)
            (parse_vpd_block-ends fuel rest behind _
              (omega (arith, h, block_entry-lt (c ∷ s) behind kw text rest e)))
    ]

assign_block-ends : (o : Outcome (Dict Bytes)) (v : Vpd) → o ≢ runs_on → assign_block o v ≢ runs_on
assign_block-ends (done ro) v h = λ e. ground (arith, e)
assign_block-ends panics v h = λ e. ground (arith, e)
assign_block-ends runs_on v h = absurd (h refl)

pub Outcome-cases : (o : Outcome Vpd) → (o ≡ panics) ⊎ ((o ≡ runs_on) ⊎ ((v : Vpd) × (o ≡ done v)))
Outcome-cases panics = inl refl
Outcome-cases runs_on = inr (inl refl)
Outcome-cases (done v) = inr (inr (v, refl))

read_block-ends :
    (tag : ℕ) (block behind : Bytes) (v : Vpd) → read_block tag block behind v ≢ runs_on
unfolding read_block
read_block-ends tag block behind v = elim (Bool-cases (tag == 130)) [
  | inl id ↦ rw id (λ e. ground (arith, e))
  | inr not_id ↦ elim (Bool-cases (tag == 144)) [
    | inl ro ↦
        rw (not_id, ro)
          (assign_block-ends _ v
            (parse_vpd_block-ends (suc (length block)) block behind [] (omega arith)))
    | inr other ↦ rw (not_id, other) (λ e. ground (arith, e))
  ]
]

file_block-lt :
    (s : Bytes) (tag len_block : ℕ) (block behind : Bytes)
    → file_block s ≡ some (tag, len_block, block, behind)
    → 3 + len_block ≤ length s
unfolding file_block with_block slice
file_block-lt [] tag len_block block behind h = absurd (ground (arith, h))
file_block-lt (t ∷ []) tag len_block block behind h = absurd (ground (arith, h))
file_block-lt (t ∷ lo ∷ []) tag len_block block behind h = absurd (ground (arith, h))
file_block-lt (t ∷ lo ∷ hi ∷ s) tag len_block block behind h = ground (arith, h)

shrinks :
    (c : ℕ) (s spare : Bytes) (n : ℕ)
    → suc (length s + length spare) < 2 ^ 16
    → 3 + n ≤ suc (length (s ++ spare))
    → length (drop (advance n) (c ∷ s)) < suc (length s)
unfolding advance
shrinks c s spare n small h =
    omega (arith, length-drop ((n + 3) % 2 ^ 16) (c ∷ s), length-append s spare, small, h)

-- On a file whose array has less than 2^16 bytes ParseVpd comes to an end, with a result or a panic:
-- as many rounds as the file has bytes, and one, are enough.
pub parse_vpd-ends :
    (fuel : ℕ) (s spare : Bytes) (v : Vpd)
    → length s + length spare < 2 ^ 16
    → length s < fuel
    → parse_vpd fuel s spare v ≢ runs_on
unfolding parse_vpd
parse_vpd-ends zero s spare v small h = absurd (omega (arith, h))
parse_vpd-ends (suc fuel) [] spare v small h = λ e. ground (arith, e)
parse_vpd-ends (suc fuel) (c ∷ s) spare v small h =
    elim (Option-cases (file_block (c ∷ (s ++ spare)))) [
      | inl e ↦ rw (e, parse_vpd) (λ e. ground (arith, e))
      | inr ((tag, len_block, block, behind), e) ↦
          (let less =
              shrinks c s spare len_block (omega (arith, small))
                (file_block-lt (c ∷ (s ++ spare)) tag len_block block behind e) in
            elim (Outcome-cases (read_block tag block behind v)) [
              | inl f ↦ rw (e, f, parse_vpd) (λ e. ground (arith, e))
              | inr (inl f) ↦ absurd (read_block-ends tag block behind v f)
              | inr (inr (v', f)) ↦ elim (Bool-cases (tag == 120)) [
                | inl last ↦ rw (e, f, last, parse_vpd) (λ e. ground (arith, e))
                | inr other ↦
                    rw (e, f, other, parse_vpd)
                      (parse_vpd-ends fuel (drop (advance len_block) (c ∷ s)) spare v'
                        (omega (arith, small, less)) (omega (arith, h, less)))
              ]
            ])
    ]

long_block :
    (tag : ℕ) (s : Bytes)
    → 65533 ≤ length s
    → file_block (tag ∷ 253 ∷ 255 ∷ s) ≡ some (tag, 65533, take 65533 s, drop 65533 s)
unfolding file_block with_block slice
long_block tag s h = rw (lt_false (length s) 65533 h, file_block, with_block, slice) refl
  where
    lt_false : (n m : ℕ) → m ≤ n → ltb n m ≡ false
    lt_false n m h = ground (arith, h)

-- A block of 65533 bytes under a tag that the switch does not know stops ParseVpd from ever going
-- on: its length and that of its header wrap to 0, and the same block is read again.
pub parse_vpd-stalls :
    (fuel tag : ℕ) (s spare : Bytes) (v : Vpd)
    → 65533 ≤ length (s ++ spare)
    → tag == 120 ≡ false
    → tag == 130 ≡ false
    → tag == 144 ≡ false
    → parse_vpd fuel (tag ∷ 253 ∷ 255 ∷ s) spare v ≡ runs_on
unfolding parse_vpd advance read_block
parse_vpd-stalls zero tag s spare v h e f g = refl
parse_vpd-stalls (suc fuel) tag s spare v h e f g =
    rw (long_block tag (s ++ spare) h, f, g, e, parse_vpd)
      (parse_vpd-stalls fuel tag s spare v h e f g)
