-- ===== src/Dpll/Replies/RoundTrip.antt =====
-- The theorems on ParsePinReplies (pkg/dpll-netlink/dpll.go): what it reads of a message in which
-- every attribute of a pin is written.
use np_linuxptp_daemon.Base.{
  ℕ, map, All, ◌≢◌, ◌≡◌, refl, List, [], ◌∷◌, ◌++◌, some, String, ◌^◌, ◌<◌,
}
use np_linuxptp_daemon.Strings.{codes}
use np_linuxptp_daemon.Base.Int.{ℤ, pos, negsuc, ◌≤ℤ◌}
use np_linuxptp_daemon.Dpll.Replies.{
  Decoder, FrequencyRange, PinParentDevice, PinParentPin, PinGetReply, new_pin_reply, put, each,
  nested, frequency_attr, parent_attr, parent_pin_attr, pin_attr, parse_pin_replies,
}

-- A writer of payloads, and the bytes of a payload.
pub record Writer (P : Type 0) : Type 0 where
  pub size : P → ℕ
  pub put_attributes : List (ℕ × P) → P
  pub put_uint32 : ℕ → P
  pub put_uint64 : ℕ → P
  pub put_int32 : ℤ → P
  pub put_int64 : ℤ → P
  pub put_string : String → P

-- The integers of an int of some bits.
abbrev pub IsInt : ℕ → ℤ → Type 0
IsInt b z = (negsuc b ≤ℤ z) × (z ≤ℤ pos b)

-- Attributes with types that leave the two highest bits free, which are flags, and with payloads
-- that leave room for the header of an attribute in a length of 16 bits.
abbrev pub Encodable : {P : Type 0} → Writer P → List (ℕ × P) → Type 0
Encodable w l = All (λ a. (a.0 < 2 ^ 14) × (w.size a.1 < 65532)) l

-- A text without a NUL, which is what ends a text.
abbrev pub IsText : String → Type 0
IsText s = All (λ n. n ≢ 0) (codes s)

-- The decoder reads what the writer wrote, of the values that can be written.
pub record Reads {P : Type 0} (c : Decoder P) (w : Writer P) : Type 0 where
  pub attributes : (l : List (ℕ × P)) → Encodable w l → c.attributes (w.put_attributes l) ≡ some l
  pub as_uint32 : (n : ℕ) → n < 2 ^ 32 → c.as_uint32 (w.put_uint32 n) ≡ some n
  pub as_uint64 : (n : ℕ) → n < 2 ^ 64 → c.as_uint64 (w.put_uint64 n) ≡ some n
  pub as_int32 : (z : ℤ) → IsInt 2147483647 z → c.as_int32 (w.put_int32 z) ≡ some z
  pub as_int64 : (z : ℤ) → IsInt 9223372036854775807 z → c.as_int64 (w.put_int64 z) ≡ some z
  pub as_string : (s : String) → IsText s → c.as_string (w.put_string s) ≡ some s

-- The numbers of a reply fit into the fields of the source, and its texts have no NUL.
pub record Fits (r : PinGetReply) : Type 0 where
  pub id : r.id < 2 ^ 32
  pub clock_id : r.clock_id < 2 ^ 64
  pub type : r.type < 2 ^ 32
  pub frequency : r.frequency < 2 ^ 64
  pub frequency_min : r.frequency_supported.frequency_min < 2 ^ 64
  pub frequency_max : r.frequency_supported.frequency_max < 2 ^ 64
  pub capabilities : r.capabilities < 2 ^ 32
  pub parent_id : r.parent_device.parent_id < 2 ^ 32
  pub direction : r.parent_device.direction < 2 ^ 32
  pub prio : r.parent_device.prio < 2 ^ 32
  pub state : r.parent_device.state < 2 ^ 32
  pub phase_offset : IsInt 9223372036854775807 r.parent_device.phase_offset
  pub parent_pin_id : r.parent_pin.parent_id < 2 ^ 32
  pub pin_state : r.parent_pin.state < 2 ^ 32
  pub phase_adjust_min : IsInt 2147483647 r.phase_adjust_min
  pub phase_adjust_max : IsInt 2147483647 r.phase_adjust_max
  pub phase_adjust : IsInt 2147483647 r.phase_adjust
  pub offset : IsInt 2147483647 r.fractional_frequency_offset
  pub module_name : IsText r.module_name
  pub board_label : IsText r.board_label
  pub panel_label : IsText r.panel_label
  pub package_label : IsText r.package_label

module _ {P : Type 0} (w : Writer P) where
  abbrev pub frequency_attributes : FrequencyRange → List (ℕ × P)
  frequency_attributes f =
      (13, w.put_uint64 f.frequency_min) ∷ (14, w.put_uint64 f.frequency_max) ∷ []

  abbrev pub without_offset : PinParentDevice → List (ℕ × P)
  without_offset d =
      (2, w.put_uint32 d.parent_id)
      ∷ (10, w.put_uint32 d.direction)
      ∷ (15, w.put_uint32 d.prio)
      ∷ (16, w.put_uint32 d.state)
      ∷ []

  abbrev pub parent_attributes : PinParentDevice → List (ℕ × P)
  parent_attributes d = without_offset d ++ (23, w.put_int64 d.phase_offset) ∷ []

  abbrev pub parent_pin_attributes : PinParentPin → List (ℕ × P)
  parent_pin_attributes d = (2, w.put_uint32 d.parent_id) ∷ (16, w.put_uint32 d.state) ∷ []

  -- Every attribute of a pin, in the order of the numbers of the types.
  abbrev pub pin_attributes : PinGetReply → List (ℕ × P)
  pin_attributes r =
      (1, w.put_uint32 r.id)
      ∷ (3, w.put_string r.module_name)
      ∷ (5, w.put_uint64 r.clock_id)
      ∷ (6, w.put_string r.board_label)
      ∷ (7, w.put_string r.panel_label)
      ∷ (8, w.put_string r.package_label)
      ∷ (9, w.put_uint32 r.type)
      ∷ (11, w.put_uint64 r.frequency)
      ∷ (12, w.put_attributes (frequency_attributes r.frequency_supported))
      ∷ (17, w.put_uint32 r.capabilities)
      ∷ (18, w.put_attributes (parent_attributes r.parent_device))
      ∷ (19, w.put_attributes (parent_pin_attributes r.parent_pin))
      ∷ (20, w.put_int32 r.phase_adjust_min)
      ∷ (21, w.put_int32 r.phase_adjust_max)
      ∷ (22, w.put_int32 r.phase_adjust)
      ∷ (24, w.put_int32 r.fractional_frequency_offset)
      ∷ []

  -- The nested attributes of a reply can be written.
  pub record IsNested (r : PinGetReply) : Type 0 where
    pub fits : Fits r
    pub frequency : Encodable w (frequency_attributes r.frequency_supported)
    pub parent : Encodable w (parent_attributes r.parent_device)
    pub parent_pin : Encodable w (parent_pin_attributes r.parent_pin)

  -- A reply that can be written as a message.
  abbrev pub IsWritable : PinGetReply → Type 0
  IsWritable r = IsNested r × Encodable w (pin_attributes r)

  module _ (c : Decoder P) (h : Reads c w) where
    nested-frequency :
        (f g : FrequencyRange)
        → f.frequency_min < 2 ^ 64
        → f.frequency_max < 2 ^ 64
        → Encodable w (frequency_attributes f)
        → nested c (frequency_attr c) (w.put_attributes (frequency_attributes f)) g ≡ some f
    unfolding nested each frequency_attr put
    nested-frequency f g p q o = rw (
      nested,
      each,
      put,
      h.attributes (frequency_attributes f) o,
      h.as_uint64 f.frequency_min p,
      h.as_uint64 f.frequency_max q,
    )

    nested-parent :
        (r : PinGetReply) (e : PinParentDevice)
        → IsNested r
        → nested c (parent_attr c) (w.put_attributes (parent_attributes r.parent_device)) e
          ≡ some r.parent_device
    unfolding nested each parent_attr put
    nested-parent r e k =
        let d = r.parent_device in
        rw (
          nested,
          each,
          put,
          h.attributes (parent_attributes d) k.parent,
          h.as_uint32 d.parent_id k.fits.parent_id,
          h.as_uint32 d.direction k.fits.direction,
          h.as_uint32 d.prio k.fits.prio,
          h.as_uint32 d.state k.fits.state,
          h.as_int64 d.phase_offset k.fits.phase_offset,
        )

    nested-parent_pin :
        (r : PinGetReply) (e : PinParentPin)
        → IsNested r
        → nested c (parent_pin_attr c) (w.put_attributes (parent_pin_attributes r.parent_pin)) e
          ≡ some r.parent_pin
    unfolding nested each parent_pin_attr put
    nested-parent_pin r e k = rw (
      nested,
      each,
      put,
      h.attributes (parent_pin_attributes r.parent_pin) k.parent_pin,
      h.as_uint32 r.parent_pin.parent_id k.fits.parent_pin_id,
      h.as_uint32 r.parent_pin.state k.fits.pin_state,
    )

    -- Every field of the reply is overwritten.
    each-pin :
        (r e : PinGetReply) (m : List (ℕ × P))
        → IsNested r
        → each (pin_attr c) (pin_attributes r ++ m) e ≡ each (pin_attr c) m r
    unfolding each pin_attr put
    each-pin r e m k = rw (
      each,
      put,
      h.as_uint32 r.id k.fits.id,
      h.as_string r.module_name k.fits.module_name,
      h.as_uint64 r.clock_id k.fits.clock_id,
      h.as_string r.board_label k.fits.board_label,
      h.as_string r.panel_label k.fits.panel_label,
      h.as_string r.package_label k.fits.package_label,
      h.as_uint32 r.type k.fits.type,
      h.as_uint64 r.frequency k.fits.frequency,
      nested-frequency r.frequency_supported e.frequency_supported k.fits.frequency_min
          k.fits.frequency_max k.frequency,
      h.as_uint32 r.capabilities k.fits.capabilities,
      nested-parent r e.parent_device k,
      nested-parent_pin r e.parent_pin k,
      h.as_int32 r.phase_adjust_min k.fits.phase_adjust_min,
      h.as_int32 r.phase_adjust_max k.fits.phase_adjust_max,
      h.as_int32 r.phase_adjust k.fits.phase_adjust,
      h.as_int32 r.fractional_frequency_offset k.fits.offset,
    )

    -- What the decoder reads of messages that hold every attribute of each pin is the pins, in
    -- order, if the pins can be written: the numbers fit into their fields, the texts have no NUL,
    -- and the attributes are not too long.
    pub parse_pin_replies-pin_attributes :
        (rs : List PinGetReply)
        → All IsWritable rs
        → parse_pin_replies c (map (λ r. w.put_attributes (pin_attributes r)) rs) ≡ some rs
    unfolding parse_pin_replies nested put
    parse_pin_replies-pin_attributes [] k = refl
    parse_pin_replies-pin_attributes (r ∷ rs) (k, ks) = rw (
      parse_pin_replies,
      nested,
      put,
      h.attributes (pin_attributes r) k.1,
      each-pin r new_pin_reply [] k.0,
      parse_pin_replies-pin_attributes rs ks,
    )

    -- Of a message that gives a second parent device without a phase offset after every attribute of
    -- a pin, the reply has the second parent device with the phase offset of the first, if all this
    -- can be written.
    pub parse_pin_replies_two_parents :
        (r : PinGetReply) (d : PinParentDevice)
        → IsNested r
        → Fits (record r { parent_device = d })
        → Encodable w (without_offset d)
        → Encodable w (pin_attributes r ++ (18, w.put_attributes (without_offset d)) ∷ [])
        → parse_pin_replies c (
            w.put_attributes (pin_attributes r ++ (18, w.put_attributes (without_offset d)) ∷ [])
            ∷ [])
          ≡ some (
              record r { parent_device = record d { phase_offset = r.parent_device.phase_offset } }
              ∷ [])
    unfolding parse_pin_replies nested each pin_attr parent_attr put
    parse_pin_replies_two_parents r d k l o m = rw (
      parse_pin_replies,
      nested,
      put,
      h.attributes (pin_attributes r ++ (18, w.put_attributes (without_offset d)) ∷ []) m,
      each-pin r new_pin_reply ((18, w.put_attributes (without_offset d)) ∷ []) k,
      each,
      h.attributes (without_offset d) o,
      h.as_uint32 d.parent_id l.parent_id,
      h.as_uint32 d.direction l.direction,
      h.as_uint32 d.prio l.prio,
      h.as_uint32 d.state l.state,
    )
