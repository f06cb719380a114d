-- ===== src/Addons/Vpd.antt =====
-- ParseVpd and parseVpdBlock (addons/intel/phaseAdjust.go): the product data of a card. A file is
-- what is left of it from `offset` on, with the bytes that the array of the slice has behind its
-- end: an index ends at the length, but a slice expression panics only where it ends behind the
-- array. The loops run on fuel.
pub mod Ends
pub mod RoundTrip
use np_linuxptp_daemon.Base.{
  ℕ, zero, suc, ◌+◌, ◌*◌, ◌%◌, ◌^◌, ◌≡◌, Bool, true, false, ◌||◌, List, [], ◌∷◌, ◌++◌, Option, none,
  some, if◌then◌else◌, ltb, length, take, drop, ◌==◌,
}
use np_linuxptp_daemon.Strings.{Bytes, codes, bytes_eq, has_prefix}
use np_linuxptp_daemon.Strings.Dict.{Dict, find, put}

-- The struct `Vpd`.
pub record Vpd : Type 0 where
  pub identifier_string_descriptor : Bytes
  pub part_number : Bytes
  pub serial_number : Bytes
  pub vendor_specific1 : Bytes
  pub vendor_specific2 : Bytes

abbrev pub blank_vpd : Vpd
blank_vpd = record {
  identifier_string_descriptor = [];
  part_number = [];
  serial_number = [];
  vendor_specific1 = [];
  vendor_specific2 = [];
}

-- How a parser ends: with a result, by a panic, or not within the fuel.
pub data Outcome {ℓ} (A : Type ℓ) : Type ℓ where
  done : A → Outcome A
  panics : Outcome A
  runs_on : Outcome A

-- The first n bytes of an array and the others; none is the panic if there are less.
unfoldable pub slice : ℕ → Bytes → Option (Bytes × Bytes)
slice n s = if ltb (length s) n then none else some (take n s, drop n s)

-- The test on a keyword.
unfoldable pub is_kept : Bytes → Bool
unfolding has_prefix bytes_eq
is_kept kw = has_prefix kw (codes "V") || (bytes_eq kw (codes "PN") || bytes_eq kw (codes "SN"))

abbrev pub keep : Bytes → Bytes → Dict Bytes → Dict Bytes
keep kw text rv = if is_kept kw then put kw text rv else rv

-- One round of the loop of `parseVpdBlock`, behind the test that bytes are left: the keyword, the
-- length, the text, and what is left.
unfoldable pub block_entry : Bytes → Bytes → Option (Bytes × Bytes × Bytes)
unfolding slice
block_entry [] behind = none
block_entry (k1 ∷ []) behind = none
block_entry (k1 ∷ k2 ∷ []) behind = none
block_entry (k1 ∷ k2 ∷ ln ∷ s) behind = elim (slice ln (s ++ behind)) [
  | none ↦ none
  | some (text, rest) ↦ some (k1 ∷ k2 ∷ [], text, drop ln s)
]

-- `parseVpdBlock`
unfoldable pub parse_vpd_block : ℕ → Bytes → Bytes → Dict Bytes → Outcome (Dict Bytes)
unfolding block_entry is_kept
parse_vpd_block zero s behind rv = runs_on
parse_vpd_block (suc fuel) [] behind rv = done rv
parse_vpd_block (suc fuel) (c ∷ s) behind rv = elim (block_entry (c ∷ s) behind) [
  | none ↦ panics
  | some (kw, text, rest) ↦ parse_vpd_block fuel rest behind (keep kw text rv)
]

abbrev pub or_keep : Option Bytes → Bytes → Bytes
or_keep none old = old
or_keep (some new) old = new

-- The assignments from the map of a read-only block.
unfoldable pub assign : Dict Bytes → Vpd → Vpd
unfolding find
assign ro v = record v {
  part_number = or_keep (find (codes "PN") ro) v.part_number;
  serial_number = or_keep (find (codes "SN") ro) v.serial_number;
  vendor_specific1 = or_keep (find (codes "V1") ro) v.vendor_specific1;
  vendor_specific2 = or_keep (find (codes "V2") ro) v.vendor_specific2;
}

abbrev pub assign_block : Outcome (Dict Bytes) → Vpd → Outcome Vpd
assign_block (done ro) v = done (assign ro v)
assign_block panics v = panics
assign_block runs_on v = runs_on

-- What the switch makes of a block, but for the tag of the end.
unfoldable pub read_block : ℕ → Bytes → Bytes → Vpd → Outcome Vpd
unfolding parse_vpd_block assign
read_block tag block behind v =
    if tag == 130
    then done (record v { identifier_string_descriptor = block })
    else if tag == 144
    then assign_block (parse_vpd_block (suc (length block)) block behind []) v
    else done v

unfoldable pub with_block : ℕ → ℕ → Bytes → Option (ℕ × ℕ × Bytes × Bytes)
unfolding slice
with_block tag len_block s = elim (slice len_block s) [
  | none ↦ none
  | some (block, behind) ↦ some (tag, len_block, block, behind)
]

-- The tag, the length of the block, the block, and what the array has behind it.
unfoldable pub file_block : Bytes → Option (ℕ × ℕ × Bytes × Bytes)
unfolding with_block
file_block [] = none
file_block (tag ∷ []) = none
file_block (tag ∷ lo ∷ []) = none
file_block (tag ∷ lo ∷ hi ∷ s) = with_block tag (lo + 256 * hi) s

-- `int(lenBlock + PCI_VPD_BLOCK_DESCRIPTOR_LEN)`: the sum is one of 16 bits.
unfoldable pub advance : ℕ → ℕ
advance len_block = (len_block + 3) % 2 ^ 16

-- `ParseVpd`, on a file whose array has the bytes `spare` behind it.
unfoldable pub parse_vpd : ℕ → Bytes → Bytes → Vpd → Outcome Vpd
unfolding file_block advance read_block
parse_vpd zero s spare v = runs_on
parse_vpd (suc fuel) [] spare v = done v
parse_vpd (suc fuel) (c ∷ s) spare v = elim (file_block (c ∷ (s ++ spare))) [
  | none ↦ panics
  | some (tag, len_block, block, behind) ↦ elim (read_block tag block behind v) [
    | panics ↦ panics
    | runs_on ↦ runs_on
    | done v' ↦
        (let rest = parse_vpd fuel (drop (advance len_block) (c ∷ s)) spare v' in
          if tag == 120 then done v' else rest)
  ]
]
