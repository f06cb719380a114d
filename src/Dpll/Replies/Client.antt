-- ===== src/Dpll/Replies/Client.antt =====
-- The requests of `Conn` (pkg/dpll-netlink/dpll.go). The encoder and the connection, which adds its
-- family and version to a message, are parameters.
use np_linuxptp_daemon.Base.{
  ℕ, Bool, true, false, List, [], ◌∷◌, ◌++◌, Option, none, some, if◌then◌else◌, ◌==◌, String,
  str_eq,
}
use np_linuxptp_daemon.Base.Int.{ℤ}
use np_linuxptp_daemon.Dpll.Replies.{
  Decoder, DeviceGetReply, PinGetReply, put, nested, parse_device_replies, parse_pin_replies,
}

-- An attribute's value, as the encoder takes it.
pub data Field : Type 0 where
  uint8 uint32 uint64 : ℕ → Field
  int32 : ℤ → Field

-- `AttributeEncoder.Encode`, `Execute` with a command and whether it is a dump, and `Send`, which
-- says whether the message is sent. `no_data` is a message without attributes.
pub record Link (P : Type 0) : Type 0 where
  pub encode : List (ℕ × Field) → Option P
  pub no_data : P
  pub execute : ℕ → Bool → P → Option (List P)
  pub send : ℕ → P → Bool

-- `GetMcastGroupId`, on the names and the numbers of the groups.
unfoldable pub get_mcast_group_id : List (String × ℕ) → String → Option ℕ
get_mcast_group_id [] name = none
get_mcast_group_id ((g, n) ∷ gs) name =
    let rest = get_mcast_group_id gs name in if str_eq g name then some n else rest

-- An attribute that is left out where it is zero.
unfoldable pub unless_zero : ℕ → (ℕ → Field) → ℕ → List (ℕ × Field)
unless_zero t f n = if n == 0 then [] else (t, f n) ∷ []

-- `if len(replies) != 1`
unfoldable pub exactly_one : {R : Type 0} → List R → Option R
exactly_one [] = none
exactly_one (r ∷ []) = some r
exactly_one (r ∷ s ∷ rs) = none

unfoldable pub bind : {A B : Type 0} → Option A → (A → Option B) → Option B
bind none f = none
bind (some a) f = f a

module _ {P : Type 0} (c : Decoder P) where
  -- The switch of DoDeviceIdGet.
  unfoldable pub device_id_attr : ℕ → P → ℕ → Option ℕ
  unfolding put
  device_id_attr t p r = if t == 1 then c.as_uint32 p else some r

  -- The loop of DoDeviceIdGet.
  unfoldable pub parse_device_ids : List P → Option (List ℕ)
  unfolding put nested device_id_attr
  parse_device_ids [] = some []
  parse_device_ids (m ∷ ms) =
      let rest = parse_device_ids ms in
      elim (nested c device_id_attr m 0) [ none ↦ none | some r ↦ put rest (λ rs. r ∷ rs) ]

  module _ (k : Link P) where
    -- `DoDeviceIdGet`, with the clock's number and the type.
    unfoldable pub do_device_id_get : ℕ → ℕ → Option ℕ
    unfolding bind exactly_one unless_zero parse_device_ids
    do_device_id_get clock_id type =
        bind (k.encode (unless_zero 4 uint64 clock_id ++ unless_zero 9 uint8 type))
          (λ b. bind (k.execute 1 false b) (λ msgs. bind (parse_device_ids msgs) exactly_one))

    -- `DoDeviceGet`
    unfoldable pub do_device_get : ℕ → Option DeviceGetReply
    unfolding bind exactly_one unless_zero parse_device_replies
    do_device_get id =
        bind (k.encode (unless_zero 1 uint32 id))
          (λ b. bind (k.execute 2 false b) (λ msgs. bind (parse_device_replies c msgs) exactly_one))

    -- `DumpDeviceGet`
    unfoldable pub dump_device_get : Option (List DeviceGetReply)
    unfolding bind parse_device_replies
    dump_device_get = bind (k.execute 2 true k.no_data) (λ msgs. parse_device_replies c msgs)

    -- `DoPinGet`
    unfoldable pub do_pin_get : ℕ → Option PinGetReply
    unfolding bind exactly_one unless_zero parse_pin_replies
    do_pin_get id =
        bind (k.encode (unless_zero 1 uint32 id))
          (λ b. bind (k.execute 8 false b) (λ msgs. bind (parse_pin_replies c msgs) exactly_one))

    -- `DumpPinGet`
    unfoldable pub dump_pin_get : Option (List PinGetReply)
    unfolding bind parse_pin_replies
    dump_pin_get =
        bind (k.encode []) (λ b. bind (k.execute 8 true b) (λ msgs. parse_pin_replies c msgs))

module _ {P : Type 0} (k : Link P) where
  -- `PinPhaseAdjust`: whether it returns without an error.
  unfoldable pub pin_phase_adjust : ℕ → ℤ → Bool
  pin_phase_adjust id adjust = elim (k.encode ((1, uint32 id) ∷ (22, int32 adjust) ∷ [])) [
    | none ↦ false
    | some b ↦ k.send 9 b
  ]
