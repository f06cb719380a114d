-- ===== src/Dpll/Replies.antt =====
-- ParseDeviceReplies and ParsePinReplies (pkg/dpll-netlink/dpll.go): what the attributes of a
-- message of the netlink family "dpll" give. The decoder of a message is a parameter.
pub mod RoundTrip
pub mod Client
pub mod Answers
use np_linuxptp_daemon.Base.{ℕ, List, [], ◌∷◌, Option, none, some, String, if◌then◌else◌, ◌==◌}
use np_linuxptp_daemon.Base.Int.{ℤ, pos}
use np_linuxptp_daemon.Dpll.Netlink.{max_int64}

-- `netlink.AttributeDecoder` on a payload: its attributes with their types, and the payload as a
-- value. `none` is an error of the decoder, which `Err` then returns.
pub record Decoder (P : Type 0) : Type 0 where
  pub attributes : P → Option (List (ℕ × P))
  pub as_uint32 : P → Option ℕ
  pub as_uint64 : P → Option ℕ
  pub as_int32 : P → Option ℤ
  pub as_int64 : P → Option ℤ
  pub as_string : P → Option String

-- `DoDeviceGetReply`
pub record DeviceGetReply : Type 0 where
  pub id : ℕ
  pub module_name : String
  pub mode : ℕ
  pub mode_supported : ℕ
  pub lock_status : ℕ
  pub temp : ℤ
  pub clock_id : ℕ
  pub type : ℕ

-- `FrequencyRange`
pub record FrequencyRange : Type 0 where
  pub frequency_min : ℕ
  pub frequency_max : ℕ

-- `PinParentDevice`
pub record PinParentDevice : Type 0 where
  pub parent_id : ℕ
  pub direction : ℕ
  pub prio : ℕ
  pub state : ℕ
  pub phase_offset : ℤ

-- `PinParentPin`
pub record PinParentPin : Type 0 where
  pub parent_id : ℕ
  pub state : ℕ

-- `DoPinGetReply`
pub record PinGetReply : Type 0 where
  pub id : ℕ
  pub clock_id : ℕ
  pub board_label : String
  pub panel_label : String
  pub package_label : String
  pub type : ℕ
  pub frequency : ℕ
  pub frequency_supported : FrequencyRange
  pub capabilities : ℕ
  pub parent_device : PinParentDevice
  pub parent_pin : PinParentPin
  pub phase_adjust_min : ℤ
  pub phase_adjust_max : ℤ
  pub phase_adjust : ℤ
  pub fractional_frequency_offset : ℤ
  pub module_name : String

abbrev pub new_device_reply : DeviceGetReply
new_device_reply = record {
  id = 0;
  module_name = "";
  mode = 0;
  mode_supported = 0;
  lock_status = 0;
  temp = pos 0;
  clock_id = 0;
  type = 0;
}

-- The phase offset starts at the largest int64.
abbrev pub new_pin_reply : PinGetReply
new_pin_reply = record {
  id = 0;
  clock_id = 0;
  board_label = "";
  panel_label = "";
  package_label = "";
  type = 0;
  frequency = 0;
  frequency_supported = record { frequency_min = 0; frequency_max = 0 };
  capabilities = 0;
  parent_device = record {
    parent_id = 0;
    direction = 0;
    prio = 0;
    state = 0;
    phase_offset = max_int64;
  };
  parent_pin = record { parent_id = 0; state = 0 };
  phase_adjust_min = pos 0;
  phase_adjust_max = pos 0;
  phase_adjust = pos 0;
  fractional_frequency_offset = pos 0;
  module_name = "";
}

-- A field is set from a value of the decoder.
unfoldable pub put : {A R : Type 0} → Option A → (A → R) → Option R
put none f = none
put (some a) f = some (f a)

-- The loop over the attributes.
unfoldable pub each : {P R : Type 0} → (ℕ → P → R → Option R) → List (ℕ × P) → R → Option R
each f [] r = some r
each f ((t, p) ∷ l) r = elim (f t p r) [ none ↦ none | some r' ↦ each f l r' ]

-- A decoder on a payload, and the loop over its attributes.
unfoldable pub nested : {P R : Type 0} → Decoder P → (ℕ → P → R → Option R) → P → R → Option R
unfolding each
nested c f p r = elim (c.attributes p) [ none ↦ none | some l ↦ each f l r ]

module _ {P : Type 0} (c : Decoder P) where
  -- The switch of ParseDeviceReplies.
  unfoldable pub device_attr : ℕ → P → DeviceGetReply → Option DeviceGetReply
  unfolding put
  device_attr t p r =
      if t == 1
      then put (c.as_uint32 p) (λ v. record r { id = v })
      else if t == 2
      then put (c.as_string p) (λ v. record r { module_name = v })
      else if t == 7
      then put (c.as_uint32 p) (λ v. record r { lock_status = v })
      else if t == 8
      then put (c.as_int32 p) (λ v. record r { temp = v })
      else if t == 4
      then put (c.as_uint64 p) (λ v. record r { clock_id = v })
      else if t == 9
      then put (c.as_uint32 p) (λ v. record r { type = v })
      else some r

  unfoldable pub frequency_attr : ℕ → P → FrequencyRange → Option FrequencyRange
  unfolding put
  frequency_attr t p r =
      if t == 13
      then put (c.as_uint64 p) (λ v. record r { frequency_min = v })
      else if t == 14
      then put (c.as_uint64 p) (λ v. record r { frequency_max = v })
      else some r

  unfoldable pub parent_attr : ℕ → P → PinParentDevice → Option PinParentDevice
  unfolding put
  parent_attr t p r =
      if t == 2
      then put (c.as_uint32 p) (λ v. record r { parent_id = v })
      else if t == 10
      then put (c.as_uint32 p) (λ v. record r { direction = v })
      else if t == 15
      then put (c.as_uint32 p) (λ v. record r { prio = v })
      else if t == 16
      then put (c.as_uint32 p) (λ v. record r { state = v })
      else if t == 23
      then put (c.as_int64 p) (λ v. record r { phase_offset = v })
      else some r

  unfoldable pub parent_pin_attr : ℕ → P → PinParentPin → Option PinParentPin
  unfolding put
  parent_pin_attr t p r =
      if t == 2
      then put (c.as_uint32 p) (λ v. record r { parent_id = v })
      else if t == 16
      then put (c.as_uint32 p) (λ v. record r { state = v })
      else some r

  -- The switch of ParsePinReplies.
  unfoldable pub pin_attr : ℕ → P → PinGetReply → Option PinGetReply
  unfolding put nested frequency_attr parent_attr parent_pin_attr
  pin_attr t p r =
      if t == 5
      then put (c.as_uint64 p) (λ v. record r { clock_id = v })
      else if t == 1
      then put (c.as_uint32 p) (λ v. record r { id = v })
      else if t == 6
      then put (c.as_string p) (λ v. record r { board_label = v })
      else if t == 7
      then put (c.as_string p) (λ v. record r { panel_label = v })
      else if t == 8
      then put (c.as_string p) (λ v. record r { package_label = v })
      else if t == 9
      then put (c.as_uint32 p) (λ v. record r { type = v })
      else if t == 11
      then put (c.as_uint64 p) (λ v. record r { frequency = v })
      else if t == 12
      then put (nested c frequency_attr p r.frequency_supported)
          (λ v. record r { frequency_supported = v })
      else if t == 17
      then put (c.as_uint32 p) (λ v. record r { capabilities = v })
      else if t == 18
      then put (nested c parent_attr p r.parent_device) (λ v. record r { parent_device = v })
      else if t == 19
      then put (nested c parent_pin_attr p r.parent_pin) (λ v. record r { parent_pin = v })
      else if t == 20
      then put (c.as_int32 p) (λ v. record r { phase_adjust_min = v })
      else if t == 21
      then put (c.as_int32 p) (λ v. record r { phase_adjust_max = v })
      else if t == 22
      then put (c.as_int32 p) (λ v. record r { phase_adjust = v })
      else if t == 24
      then put (c.as_int32 p) (λ v. record r { fractional_frequency_offset = v })
      else if t == 3
      then put (c.as_string p) (λ v. record r { module_name = v })
      else some r

  -- `ParseDeviceReplies`
  unfoldable pub parse_device_replies : List P → Option (List DeviceGetReply)
  unfolding nested device_attr
  parse_device_replies [] = some []
  parse_device_replies (m ∷ ms) =
      let rest = parse_device_replies ms in
      elim (nested c device_attr m new_device_reply) [
        | none ↦ none
        | some r ↦ put rest (λ rs. r ∷ rs)
      ]

  -- `ParsePinReplies`
  unfoldable pub parse_pin_replies : List P → Option (List PinGetReply)
  unfolding nested pin_attr
  parse_pin_replies [] = some []
  parse_pin_replies (m ∷ ms) =
      let rest = parse_pin_replies ms in
      elim (nested c pin_attr m new_pin_reply) [ none ↦ none | some r ↦ put rest (λ rs. r ∷ rs) ]
