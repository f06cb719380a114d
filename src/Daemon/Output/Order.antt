-- ===== src/Daemon/Output/Order.antt =====
-- What is written to the socket and measured, over a whole output.
use np_linuxptp_daemon.Base.{
  ◌≡◌, refl, ap, ◌∙◌, Bool, true, false, List, [], ◌∷◌, ◌++◌, map, arith, if◌then◌else◌,
}
use np_linuxptp_daemon.Strings.{Bytes}
use np_linuxptp_daemon.Daemon.Render.{Iface}
use np_linuxptp_daemon.Daemon.Output.{
  Call, prints, metrics, fails_over, writes, loses, dep_status, clock_class, status, Reader,
  replace_clock_id, by_name, remove_message_suffix, config_of_tag, message, Scanned, ends, breaks,
  prints_if, read_line_to_socket, lines_to_socket, read_to_socket,
}

-- What becomes of the lines, in the order of the calls, and the connections.
pub data Seen : Type 0 where
  measured written lost : Bytes → Seen
  connected : Seen

abbrev pub seen : List Call → List Seen
seen [] = []
seen (prints l ∷ cs) = seen cs
seen (metrics l ∷ cs) = measured l ∷ seen cs
seen (fails_over l ∷ cs) = seen cs
seen (writes l ∷ cs) = written l ∷ seen cs
seen (loses l ∷ cs) = lost l ∷ seen cs
seen (dep_status n ∷ cs) = seen cs
seen (clock_class ∷ cs) = seen cs
seen (status n s ∷ cs) = connected ∷ seen cs

seen-append : (a b : List Call) → seen (a ++ b) ≡ seen a ++ seen b
seen-append [] b = refl
seen-append (prints l ∷ a) b = seen-append a b
seen-append (metrics l ∷ a) b = ap (λ r. measured l ∷ r) (seen-append a b)
seen-append (fails_over l ∷ a) b = seen-append a b
seen-append (writes l ∷ a) b = ap (λ r. written l ∷ r) (seen-append a b)
seen-append (loses l ∷ a) b = ap (λ r. lost l ∷ r) (seen-append a b)
seen-append (dep_status n ∷ a) b = seen-append a b
seen-append (clock_class ∷ a) b = seen-append a b
seen-append (status n s ∷ a) b = ap (λ r. connected ∷ r) (seen-append a b)

-- A line with the interface for the clock's device, and its end.
abbrev pub line_of : Bytes → List Iface → Bytes → Bytes
line_of name ifaces output = replace_clock_id name ifaces output ++ b'\n' ∷ []

abbrev pub each_line : Bytes → List Iface → List Bytes → List Seen → List Seen
each_line name ifaces [] rest = rest
each_line name ifaces (output ∷ outputs) rest =
    measured (line_of name ifaces output)
    ∷ written (remove_message_suffix (line_of name ifaces output))
    ∷ each_line name ifaces outputs rest

-- What is to become of the lines that the scanners find.
abbrev pub each_scanned : Bytes → List Iface → Scanned → List Seen
each_scanned name ifaces (ends outputs) = connected ∷ each_line name ifaces outputs []
each_scanned name ifaces (breaks outputs output more) =
    connected
    ∷ each_line name ifaces outputs (
        measured (line_of name ifaces output)
        ∷ lost (remove_message_suffix (line_of name ifaces output))
        ∷ each_scanned name ifaces more)

seen_if : (b : Bool) (c d : List Call) → seen c ≡ [] → seen d ≡ [] → seen (if b then c else d) ≡ []
seen_if true c d h k = h
seen_if false c d h k = k

seen-by_name : (r : Reader) (output : Bytes) → seen (by_name r output) ≡ []
unfolding by_name
seen-by_name r output = ground arith

seen-dep_status : (names : List Bytes) → seen (map dep_status names) ≡ []
seen-dep_status [] = refl
seen-dep_status (n ∷ names) = seen-dep_status names

unseen-append : (a b : List Call) → seen a ≡ [] → seen (a ++ b) ≡ seen b
unseen-append a b h = seen-append a b ∙ ap (λ s. s ++ seen b) h

module _ (is_filtered : Bytes → Bool) where
  seen-read_line_to_socket :
      (r : Reader) (output : Bytes)
      → seen (read_line_to_socket is_filtered r output).1
        ≡ measured (line_of r.name r.ifaces output) ∷ []
  unfolding read_line_to_socket
  seen-read_line_to_socket r output =
      unseen-append (if r.pmc_check then clock_class ∷ [] else []) _
        (seen_if r.pmc_check (clock_class ∷ []) [] refl refl)
      ∙ unseen-append (prints_if (is_filtered output) output) _
          (seen_if (is_filtered output) [] (prints output ∷ []) refl refl)
      ∙ ap (λ s. measured (line_of r.name r.ifaces output) ∷ s)
          (seen-by_name r (line_of r.name r.ifaces output))

  -- One line and what follows.
  seen_line :
      (r : Reader) (output : Bytes) (rest : List Call)
      → seen ((read_line_to_socket is_filtered r output).1 ++ rest)
        ≡ measured (line_of r.name r.ifaces output) ∷ seen rest
  seen_line r output rest =
      seen-append (read_line_to_socket is_filtered r output).1 rest
      ∙ ap (λ s. s ++ seen rest) (seen-read_line_to_socket r output)

  seen-lines_to_socket :
      (outputs : List Bytes) (r : Reader) (k : Reader → List Call) (rest : List Seen)
      → ((b : Bool) → seen (k (record r { pmc_check = b })) ≡ rest)
      → seen (lines_to_socket is_filtered r outputs k) ≡ each_line r.name r.ifaces outputs rest
  unfolding lines_to_socket read_line_to_socket
  seen-lines_to_socket [] r k rest h = h r.pmc_check
  seen-lines_to_socket (output ∷ outputs) r k rest h =
      let r' = record r { pmc_check = false } in
      let m = message is_filtered r output in
      seen_line r output (writes m ∷ lines_to_socket is_filtered r' outputs k)
      ∙ ap (λ s. measured (line_of r.name r.ifaces output) ∷ written m ∷ s)
          (seen-lines_to_socket outputs r' k rest h)

  -- A connection and what follows.
  seen_connected :
      (r : Reader) (calls : List Call)
      → seen (status (config_of_tag r.message_tag) 1 ∷ (map dep_status r.dep_processes ++ calls))
        ≡ connected ∷ seen calls
  seen_connected r calls =
      ap (λ s. connected ∷ s)
        (unseen-append (map dep_status r.dep_processes) calls (seen-dep_status r.dep_processes))

  -- Over all connections, each line that a scanner finds is measured, with the interface for the
  -- clock's device in the lines of ts2phc, and then written once without its suffix, in the order of
  -- the lines. The line of a write that fails is measured and lost; then the goroutine connects and
  -- goes on with the next line that the new scanner finds.
  pub seen-read_to_socket :
      (sc : Scanned) (r : Reader)
      → seen (read_to_socket is_filtered r sc) ≡ each_scanned r.name r.ifaces sc
  unfolding read_to_socket
  seen-read_to_socket (ends outputs) r =
      seen_connected r _
      ∙ ap (λ s. connected ∷ s) (seen-lines_to_socket outputs r (λ r. []) [] (λ b. refl))
  seen-read_to_socket (breaks outputs output more) r =
      seen_connected r _
      ∙ ap (λ s. connected ∷ s)
          (seen-lines_to_socket outputs r _ _ (λ b.
            let r' = record r { pmc_check = b } in
            seen_line r' output _
            ∙ ap
                (λ s.
                  measured (line_of r.name r.ifaces output)
                  ∷ lost (message is_filtered r' output)
                  ∷ s)
                (seen-read_to_socket more (record r { pmc_check = false }))))
