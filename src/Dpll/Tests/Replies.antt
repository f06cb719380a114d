-- ===== src/Dpll/Tests/Replies.antt =====
-- The theorems on the netlink client of pkg/dpll-netlink at a concrete decoder.
use np_linuxptp_daemon.Strings.{Bytes, codes}
use np_linuxptp_daemon.Base.{
  suc, ◌+◌, ◌*◌, ◌/◌, ◌^◌, ◌↔◌, ◌≢◌, Bool, ltb, length, ◌&&◌, All, ℕ, ◌≡◌, refl, ap, true, List, [],
  ◌∷◌, ◌++◌, Option, none, some, String, map, if◌then◌else◌, ◌==◌, arith,
}
use np_linuxptp_daemon.Base.Int.{ℤ, pos, negsuc}
use np_linuxptp_daemon.Dpll.Replies.{Decoder, PinGetReply, PinParentDevice, parse_pin_replies}
use np_linuxptp_daemon.Dpll.Replies.Client.{
  Link, Field, uint8, uint32, uint64, int32, unless_zero, do_pin_get,
}
use np_linuxptp_daemon.Dpll.Replies.RoundTrip.{
  Writer, Reads, Fits, Encodable, frequency_attributes, parent_attributes, parent_pin_attributes,
  IsNested, IsWritable, pin_attributes, without_offset, parse_pin_replies-pin_attributes,
  parse_pin_replies_two_parents,
}
use np_linuxptp_daemon.Dpll.Replies.Answers.{do_pin_get_answers}

mutual
  -- A payload that keeps what was written.
  data Payload : Type 0 where
    natural : ℕ → Payload
    integer : ℤ → Payload
    letters : String → Payload
    fields : Payloads → Payload

  data Payloads : Type 0 where
    empty : Payloads
    field : ℕ → Payload → Payloads → Payloads

to_payloads : List (ℕ × Payload) → Payloads
to_payloads [] = empty
to_payloads ((t, p) ∷ l) = field t p (to_payloads l)

of_payloads : Payloads → List (ℕ × Payload)
of_payloads empty = []
of_payloads (field t p l) = (t, p) ∷ of_payloads l

of_payloads-to_payloads : (l : List (ℕ × Payload)) → of_payloads (to_payloads l) ≡ l
unfolding to_payloads of_payloads
of_payloads-to_payloads [] = refl
of_payloads-to_payloads ((t, p) ∷ l) = ap (λ m. (t, p) ∷ m) (of_payloads-to_payloads l)

read_attributes : Payload → Option (List (ℕ × Payload))
unfolding of_payloads
read_attributes (fields l) = some (of_payloads l)
read_attributes (natural n) = none
read_attributes (integer z) = none
read_attributes (letters s) = none

read_natural : Payload → Option ℕ
read_natural (natural n) = some n
read_natural (fields l) = none
read_natural (integer z) = none
read_natural (letters s) = none

read_integer : Payload → Option ℤ
read_integer (integer z) = some z
read_integer (fields l) = none
read_integer (natural n) = none
read_integer (letters s) = none

read_letters : Payload → Option String
read_letters (letters s) = some s
read_letters (fields l) = none
read_letters (natural n) = none
read_letters (integer z) = none

mutual
  -- The bytes of a payload, of which the attributes of one are each a multiple of four.
  size : Payload → ℕ
  size (natural n) = 8
  size (integer z) = 8
  size (letters s) = suc (length (codes s))
  size (fields l) = sizes l

  sizes : Payloads → ℕ
  sizes empty = 0
  sizes (field t p l) = 4 + (size p + 3) / 4 * 4 + sizes l

abbrev decoder : Decoder Payload
decoder = record {
  attributes = read_attributes;
  as_uint32 = read_natural;
  as_uint64 = read_natural;
  as_int32 = read_integer;
  as_int64 = read_integer;
  as_string = read_letters;
}

abbrev writer : Writer Payload
writer = record {
  size = size;
  put_attributes = λ l. fields (to_payloads l);
  put_uint32 = natural;
  put_uint64 = natural;
  put_int32 = integer;
  put_int64 = integer;
  put_string = letters;
}

reads : Reads decoder writer
unfolding read_attributes read_natural read_integer read_letters
reads = record {
  attributes = λ l h. ap some (of_payloads-to_payloads l);
  as_uint32 = λ n p. refl;
  as_uint64 = λ n p. refl;
  as_int32 = λ z p. refl;
  as_int64 = λ z p. refl;
  as_string = λ s h. refl;
}

abbrev is_encodable : List (ℕ × Payload) → Bool
is_encodable [] = true
is_encodable (a ∷ l) = (ltb a.0 (2 ^ 14) && ltb (size a.1) 65532) && is_encodable l

test-Encodable : (l : List (ℕ × Payload)) → is_encodable l ≡ true → Encodable writer l
test-Encodable [] h = tt
test-Encodable (a ∷ l) h =
    ((ground (arith, h), ground (arith, h)), test-Encodable l (ground (arith, h)))

abbrev is_text : Bytes → Bool
is_text [] = true
is_text (c ∷ s) = ltb 0 c && is_text s

test-IsText : (s : Bytes) → is_text s ≡ true → All (λ n. n ≢ 0) s
test-IsText [] h = tt
test-IsText (c ∷ s) h = (λ e. ground (arith, h, e), test-IsText s (ground (arith, h)))

abbrev second_parent : PinParentDevice
second_parent = record { parent_id = 1; direction = 1; prio = 3; state = 2; phase_offset = pos 0 }

abbrev pin : PinGetReply
pin = record {
  id = 13;
  clock_id = 5799633565432596414;
  board_label = "GNSS-1PPS";
  panel_label = "";
  package_label = "";
  type = 5;
  frequency = 1;
  frequency_supported = record { frequency_min = 1; frequency_max = 1 };
  capabilities = 6;
  parent_device = record {
    parent_id = 0;
    direction = 1;
    prio = 0;
    state = 1;
    phase_offset = negsuc 4320;
  };
  parent_pin = record { parent_id = 0; state = 0 };
  phase_adjust_min = negsuc 16722;
  phase_adjust_max = pos 16723;
  phase_adjust = pos 0;
  fractional_frequency_offset = pos 0;
  module_name = "ice";
}

pin-Fits : Fits pin
pin-Fits = record {
  id = omega arith;
  clock_id = omega arith;
  type = omega arith;
  frequency = omega arith;
  frequency_min = omega arith;
  frequency_max = omega arith;
  capabilities = omega arith;
  parent_id = omega arith;
  direction = omega arith;
  prio = omega arith;
  state = omega arith;
  phase_offset = (omega arith, omega arith);
  parent_pin_id = omega arith;
  pin_state = omega arith;
  phase_adjust_min = (omega arith, omega arith);
  phase_adjust_max = (omega arith, omega arith);
  phase_adjust = (omega arith, omega arith);
  offset = (omega arith, omega arith);
  module_name = test-IsText (codes "ice") refl;
  board_label = test-IsText (codes "GNSS-1PPS") refl;
  panel_label = tt;
  package_label = tt;
}

second-Fits : Fits (record pin { parent_device = second_parent })
second-Fits = record {
  id = omega arith;
  clock_id = omega arith;
  type = omega arith;
  frequency = omega arith;
  frequency_min = omega arith;
  frequency_max = omega arith;
  capabilities = omega arith;
  parent_id = omega arith;
  direction = omega arith;
  prio = omega arith;
  state = omega arith;
  phase_offset = (omega arith, omega arith);
  parent_pin_id = omega arith;
  pin_state = omega arith;
  phase_adjust_min = (omega arith, omega arith);
  phase_adjust_max = (omega arith, omega arith);
  phase_adjust = (omega arith, omega arith);
  offset = (omega arith, omega arith);
  module_name = test-IsText (codes "ice") refl;
  board_label = test-IsText (codes "GNSS-1PPS") refl;
  panel_label = tt;
  package_label = tt;
}

pin-IsNested : IsNested writer pin
unfolding size
pin-IsNested = record {
  fits = pin-Fits;
  frequency = test-Encodable (frequency_attributes writer pin.frequency_supported) refl;
  parent = test-Encodable (parent_attributes writer pin.parent_device) refl;
  parent_pin = test-Encodable (parent_pin_attributes writer pin.parent_pin) refl;
}

pin-IsWritable : IsWritable writer pin
unfolding size to_payloads
pin-IsWritable = (pin-IsNested, test-Encodable (pin_attributes writer pin) refl)

parse_pin_replies-pin_attributes_example :
    parse_pin_replies decoder
      (map (λ r. writer.put_attributes (pin_attributes writer r)) (pin ∷ pin ∷ []))
    ≡ some (pin ∷ pin ∷ [])
parse_pin_replies-pin_attributes_example =
    parse_pin_replies-pin_attributes writer decoder reads (pin ∷ pin ∷ [])
      (pin-IsWritable, (pin-IsWritable, tt))

parse_pin_replies_two_parents_example :
    parse_pin_replies decoder (
      writer.put_attributes (
        pin_attributes writer pin
        ++ (18, writer.put_attributes (without_offset writer second_parent)) ∷ [])
      ∷ [])
    ≡ some (record pin { parent_device = record second_parent { phase_offset = negsuc 4320 } } ∷ [])
unfolding size to_payloads
parse_pin_replies_two_parents_example =
    parse_pin_replies_two_parents writer decoder reads pin second_parent pin-IsNested second-Fits
      (test-Encodable (without_offset writer second_parent) refl)
      (test-Encodable
        (pin_attributes writer pin
          ++ (18, writer.put_attributes (without_offset writer second_parent)) ∷ [])
        refl)

of_field : Field → Payload
of_field (uint8 n) = natural n
of_field (uint32 n) = natural n
of_field (uint64 n) = natural n
of_field (int32 z) = integer z

abbrev link : Link Payload
link = record {
  encode = λ l. some (fields (to_payloads (map (λ x. (x.0, of_field x.1)) l)));
  no_data = fields empty;
  execute = λ n dump b.
      if n == 8 then some (writer.put_attributes (pin_attributes writer pin) ∷ []) else none;
  send = λ n b. true;
}

do_pin_get_answers_example : (do_pin_get decoder link 13 ≡ some pin) ↔ (pin ∷ [] ≡ pin ∷ [])
unfolding unless_zero of_field to_payloads
do_pin_get_answers_example =
    do_pin_get_answers decoder writer reads link 13 (fields (field 1 (natural 13) empty)) (pin ∷ [])
      pin refl refl (pin-IsWritable, tt)
