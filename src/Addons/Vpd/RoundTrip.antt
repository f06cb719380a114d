-- ===== src/Addons/Vpd/RoundTrip.antt =====
-- The product data of a card, written as the file that ParseVpd reads.

use np_linuxptp_daemon.Base.{
  ℕ, zero, suc, ◌+◌, ◌*◌, ◌/◌, ◌%◌, ◌^◌, ◌≤◌, ◌<◌, ◌≡◌, refl, ap, ◌∙◌, inl, inr, true, false,
  if◌then◌else◌, Bool-cases, List, [], ◌∷◌, ◌++◌, some, arith, ltb, length, take, drop, ◌==◌,
  length-append,
}
use np_linuxptp_daemon.Strings.{Bytes, codes, bytes_eq, bytes_eq_iff, has_prefix}
use np_linuxptp_daemon.Strings.Dict.{Dict, find, put, find-put}
use np_linuxptp_daemon.Addons.Vpd.{
  Vpd, done, slice, block_entry, parse_vpd_block, read_block, file_block, with_block, advance,
  parse_vpd, blank_vpd, assign, assign_block, keep, or_keep, is_kept,
}

-- A keyword of two bytes with its text.
pub record Entry : Type 0 where
  pub k1 : ℕ
  pub k2 : ℕ
  pub text : Bytes

abbrev pub entry_bytes : Entry → Bytes
entry_bytes e = e.k1 ∷ e.k2 ∷ length e.text ∷ e.text

abbrev pub block_bytes : List Entry → Bytes
block_bytes [] = []
block_bytes (e ∷ es) = entry_bytes e ++ block_bytes es

-- The map that the entries make.
abbrev pub entry_map : List Entry → Dict Bytes → Dict Bytes
entry_map [] rv = rv
entry_map (e ∷ es) rv = entry_map es (keep (e.k1 ∷ e.k2 ∷ []) e.text rv)

take-append : (s t : Bytes) → take (length s) (s ++ t) ≡ s
take-append [] t = refl
take-append (c ∷ s) t = ap (λ r. c ∷ r) (take-append s t)

drop-append : (s t : Bytes) → drop (length s) (s ++ t) ≡ t
drop-append [] t = refl
drop-append (c ∷ s) t = drop-append s t

ltb-append : (s t : Bytes) → ltb (length (s ++ t)) (length s) ≡ false
ltb-append s t = ground (arith, length-append s t)

slice-append : (s t : Bytes) → slice (length s) (s ++ t) ≡ some (s, t)
unfolding slice
slice-append s t = rw (ltb-append s t, take-append s t, drop-append s t) refl

append_assoc : (a b c : Bytes) → (a ++ b) ++ c ≡ a ++ (b ++ c)
append_assoc [] b c = refl
append_assoc (x ∷ a) b c = ap (λ r. x ∷ r) (append_assoc a b c)

slice-append-append : (a b c : Bytes) → slice (length a) ((a ++ b) ++ c) ≡ some (a, b ++ c)
slice-append-append a b c = ap (slice (length a)) (append_assoc a b c) ∙ slice-append a (b ++ c)

parse_vpd_block-block_bytes :
    (fuel : ℕ) (es : List Entry) (behind : Bytes) (rv : Dict Bytes)
    → length es < fuel
    → parse_vpd_block fuel (block_bytes es) behind rv ≡ done (entry_map es rv)
unfolding parse_vpd_block block_entry
parse_vpd_block-block_bytes zero es behind rv h = absurd (omega (arith, h))
parse_vpd_block-block_bytes (suc fuel) [] behind rv h = refl
parse_vpd_block-block_bytes (suc fuel) (e ∷ es) behind rv h =
    rw
      (
        slice-append-append e.text (block_bytes es) behind,
        drop-append e.text (block_bytes es),
        parse_vpd_block,
        block_entry,
      )
      (parse_vpd_block-block_bytes fuel es behind _ (omega (arith, h)))

length-block_bytes : (es : List Entry) → length es ≤ length (block_bytes es)
length-block_bytes [] = omega arith
length-block_bytes (e ∷ es) =
    omega (arith, length-block_bytes es, length-append e.text (block_bytes es))

-- A block of a file under its tag.
abbrev pub tagged : ℕ → Bytes → Bytes
tagged tag block = tag ∷ (length block % 256) ∷ (length block / 256) ∷ block

file_block-tagged :
    (tag : ℕ) (block rest spare : Bytes)
    → file_block ((tagged tag block ++ rest) ++ spare)
      ≡ some (tag, length block, block, rest ++ spare)
unfolding file_block
file_block-tagged tag block rest spare =
    ap (λ n. with_block tag n ((block ++ rest) ++ spare)) (two_bytes (length block))
    ∙ rw (slice-append-append block rest spare, with_block) refl
  where
    two_bytes : (n : ℕ) → n % 256 + 256 * (n / 256) ≡ n
    two_bytes n = omega arith

drop-tagged :
    (tag : ℕ) (block rest : Bytes)
    → length block < 65533
    → drop (advance (length block)) (tagged tag block ++ rest) ≡ rest
unfolding advance
drop-tagged tag block rest h = rw (unwrapped (length block) h, advance) (drop-append block rest)
  where
    unwrapped : (n : ℕ) → n < 65533 → (n + 3) % 2 ^ 16 ≡ suc (suc (suc n))
    unwrapped n h = omega (arith, h)

-- One round of ParseVpd on such a block, before the end and at it.
round_tagged :
    (fuel tag : ℕ) (block rest spare : Bytes) (v v' : Vpd)
    → length block < 65533
    → tag == 120 ≡ false
    → read_block tag block (rest ++ spare) v ≡ done v'
    → parse_vpd (suc fuel) (tagged tag block ++ rest) spare v ≡ parse_vpd fuel rest spare v'
unfolding parse_vpd
round_tagged fuel tag block rest spare v v' h other e =
    rw (file_block-tagged tag block rest spare, e, other, drop-tagged tag block rest h, parse_vpd)
      refl

round_end :
    (fuel : ℕ) (block rest spare : Bytes) (v : Vpd)
    → parse_vpd (suc fuel) (tagged 120 block ++ rest) spare v ≡ done v
unfolding parse_vpd read_block
round_end fuel block rest spare v = rw (file_block-tagged 120 block rest spare, parse_vpd) refl

-- The text of the last entry with a keyword, or the one given.
abbrev pub last_text : Bytes → Bytes → List Entry → Bytes
last_text kw text [] = text
last_text kw text (e ∷ es) =
    last_text kw (if bytes_eq (e.k1 ∷ e.k2 ∷ []) kw then e.text else text) es

find-keep :
    (kw j text : Bytes) (rv : Dict Bytes)
    → is_kept kw ≡ true
    → or_keep (find kw (keep j text rv)) []
      ≡ (if bytes_eq j kw then text else or_keep (find kw rv) [])
find-keep kw j text rv h = elim (Bool-cases (bytes_eq j kw)) [
  | inl same ↦
      ap (λ b. or_keep (find kw (if b then put j text rv else rv)) [])
        (ap is_kept ((bytes_eq_iff j kw).0 same) ∙ h)
      ∙ ap (λ o. or_keep o []) (find-put j kw text rv)
      ∙ rw same refl
  | inr differ ↦ elim (Bool-cases (is_kept j)) [
    | inl kept ↦
        ap (λ b. or_keep (find kw (if b then put j text rv else rv)) []) kept
        ∙ ap (λ o. or_keep o []) (find-put j kw text rv)
        ∙ rw differ refl
    | inr left ↦
        ap (λ b. or_keep (find kw (if b then put j text rv else rv)) []) left ∙ rw differ refl
  ]
]

find-entry_map :
    (kw : Bytes) (es : List Entry) (rv : Dict Bytes)
    → is_kept kw ≡ true
    → or_keep (find kw (entry_map es rv)) [] ≡ last_text kw (or_keep (find kw rv) []) es
find-entry_map kw [] rv h = refl
find-entry_map kw (e ∷ es) rv h =
    find-entry_map kw es (keep (e.k1 ∷ e.k2 ∷ []) e.text rv) h
    ∙ ap (λ t. last_text kw t es) (find-keep kw (e.k1 ∷ e.k2 ∷ []) e.text rv h)

-- The last text of a keyword that ParseVpd keeps, which is empty where there is none.
find-entries :
    (kw : Bytes) (es : List Entry)
    → is_kept kw ≡ true
    → or_keep (find kw (entry_map es [])) [] ≡ last_text kw [] es
unfolding find
find-entries kw es h = find-entry_map kw es [] h

-- What a file says.
abbrev pub written : Bytes → List Entry → Vpd
written id es = record {
  identifier_string_descriptor = id;
  part_number = last_text (codes "PN") [] es;
  serial_number = last_text (codes "SN") [] es;
  vendor_specific1 = last_text (codes "V1") [] es;
  vendor_specific2 = last_text (codes "V2") [] es;
}

assign-entry_map :
    (id : Bytes) (es : List Entry)
    → assign (entry_map es []) (record blank_vpd { identifier_string_descriptor = id })
      ≡ written id es
unfolding assign is_kept has_prefix bytes_eq
assign-entry_map id es =
    rw
      (
        assign,
        find-entries (codes "PN") es refl,
        find-entries (codes "SN") es refl,
        find-entries (codes "V1") es refl,
        find-entries (codes "V2") es refl,
      )
      refl

-- A file of an identifier, a read-only block of any entries and the end, with anything behind it.
abbrev pub vpd_file : Bytes → List Entry → Bytes → Bytes → Bytes
vpd_file id es last rest =
    tagged 130 id ++ (tagged 144 (block_bytes es) ++ (tagged 120 last ++ rest))

-- ParseVpd reads back a file of an identifier, a read-only block of keywords with their texts and
-- the end, whatever stands behind it: the identifier, and for each of PN, SN, V1 and V2 the text of
-- its last entry, where each block is shorter than 65533 bytes.
pub parse_vpd-vpd_file :
    (fuel : ℕ) (id : Bytes) (es : List Entry) (last rest spare : Bytes)
    → length id < 65533
    → length (block_bytes es) < 65533
    → parse_vpd (suc (suc (suc fuel))) (vpd_file id es last rest) spare blank_vpd
      ≡ done (written id es)
unfolding read_block
parse_vpd-vpd_file fuel id es last rest spare hi hb =
    round_tagged (suc (suc fuel)) 130 id _ spare blank_vpd _ hi refl refl
    ∙ (round_tagged (suc fuel) 144 (block_bytes es) (tagged 120 last ++ rest) spare with_id _ hb
          refl read_entries
        ∙ round_end fuel last rest spare _)
    ∙ ap done (assign-entry_map id es)
  where
    with_id : Vpd
    with_id = record blank_vpd { identifier_string_descriptor = id }

    read_entries :
        read_block 144 (block_bytes es) ((tagged 120 last ++ rest) ++ spare) with_id
        ≡ done (assign (entry_map es []) with_id)
    read_entries =
        ap (λ o. assign_block o with_id)
          (parse_vpd_block-block_bytes (suc (length (block_bytes es))) es
            ((tagged 120 last ++ rest) ++ spare) [] (omega (arith, length-block_bytes es)))
