-- ===== src/Dpll/Replies/Answers.antt =====
-- The theorems on the requests of `Conn` (pkg/dpll-netlink/dpll.go): what they return for what the
-- connection answers.
use np_linuxptp_daemon.Base.{ℕ, ◌≡◌, ◌↔◌, ap, false, List, [], ◌∷◌, map, All, some}
use mathlib.Core.Option.{some-injective}
use np_linuxptp_daemon.Dpll.Replies.{Decoder, PinGetReply}
use np_linuxptp_daemon.Dpll.Replies.Client.{
  Link, uint32, unless_zero, exactly_one, bind, do_pin_get,
}
use np_linuxptp_daemon.Dpll.Replies.RoundTrip.{
  Writer, Reads, IsWritable, pin_attributes, parse_pin_replies-pin_attributes,
}

exactly_one_iff : {R : Type 0} (rs : List R) (r : R) → (exactly_one rs ≡ some r) ↔ (rs ≡ r ∷ [])
unfolding exactly_one
exactly_one_iff [] r = (λ e. cc, λ e. cc)
exactly_one_iff (s ∷ []) r = (λ e. ap (λ t. t ∷ []) (some-injective _ _ e), λ e. ap exactly_one e)
exactly_one_iff (s ∷ t ∷ rs) r = (λ e. cc, λ e. ap exactly_one e)

module _ {P : Type 0} (c : Decoder P) (w : Writer P) (h : Reads c w) (k : Link P) where
  -- If the encoder gives `b` for the request for the pin `id` (which is empty where `id` is 0), and
  -- the connection answers it with a message for each of some pins that can be written, then
  -- DoPinGet returns a pin exactly if it is the only one of them, and else an error.
  pub do_pin_get_answers :
      (id : ℕ) (b : P) (rs : List PinGetReply) (r : PinGetReply)
      → k.encode (unless_zero 1 uint32 id) ≡ some b
      → k.execute 8 false b ≡ some (map (λ r. w.put_attributes (pin_attributes w r)) rs)
      → All (IsWritable w) rs
      → (do_pin_get c k id ≡ some r) ↔ (rs ≡ r ∷ [])
  unfolding do_pin_get bind
  do_pin_get_answers id b rs r e x f =
      rw (do_pin_get, bind, e, x, parse_pin_replies-pin_attributes w c h rs f)
        (exactly_one_iff rs r)
