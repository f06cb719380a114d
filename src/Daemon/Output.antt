-- ===== src/Daemon/Output.antt =====
-- The goroutine of cmdRun that reads the output of a program (pkg/daemon/daemon.go), one line at a
-- time, with processStatus and replaceClockID. What it calls is a list, in the order of the calls.
pub mod Order
use np_linuxptp_daemon.Base.{
  ℕ, zero, suc, ◌+◌, ◌-◌, Bool, true, false, not, ◌&&◌, ◌||◌, List, [], ◌∷◌, ◌++◌, map, Option,
  none, some, take, if◌then◌else◌, ltb, leb, drop, length, ◌==◌,
}
use np_linuxptp_daemon.Strings.{Bytes, codes, bytes_eq, has_prefix, contains, remove_byte}
use np_linuxptp_daemon.Strings.Lines.{split}
use np_linuxptp_daemon.Daemon.Render.{Iface}
use np_linuxptp_daemon.Daemon.Offsets.{iface_of_phc}

-- What the goroutine calls: printing, the metrics of a line, the search for another clock class
-- (a goroutine of its own), the fail-over, a write to the socket, one that fails, the status of the
-- process and of one that depends on it.
pub data Call : Type 0 where
  prints metrics fails_over writes loses dep_status : Bytes → Call
  clock_class : Call
  status : Bytes → ℕ → Call

-- The fields of the process that the goroutine reads.
pub record Reader : Type 0 where
  pub name : Bytes
  pub message_tag : Bytes
  pub ha_profiles : ℕ
  pub pmc_check : Bool
  pub ifaces : List Iface
  -- The names of the processes in `depProcess` that are not nil.
  pub dep_processes : List Bytes

abbrev is_digit : ℕ → Bool
is_digit c = leb b'0' c && leb c b'9'

unfoldable pub digit_count : Bytes → ℕ
digit_count [] = 0
digit_count (c ∷ s) = let rest = digit_count s in if is_digit c then suc rest else 0

-- The length of the match of `\/dev\/ptp\d+` at the start of a text, 0 if there is none.
unfoldable pub clock_id_length : Bytes → ℕ
unfolding digit_count has_prefix
clock_id_length s =
    let n = digit_count (drop 8 s) in
    if has_prefix s (codes "/dev/ptp") && not (n == 0) then 8 + n else 0

-- The first match.
unfoldable pub first_clock_id : Bytes → Option Bytes
unfolding clock_id_length
first_clock_id [] = none
first_clock_id (c ∷ s) =
    let rest = first_clock_id s in
    let n = clock_id_length (c ∷ s) in if n == 0 then rest else some (take n (c ∷ s))

-- Every match replaced; the number counts the bytes of a match that are still to be passed over.
unfoldable pub replace_clock_ids : Bytes → ℕ → Bytes → Bytes
unfolding clock_id_length
replace_clock_ids iface k [] = []
replace_clock_ids iface (suc k) (c ∷ s) = replace_clock_ids iface k s
replace_clock_ids iface zero (c ∷ s) =
    let n = clock_id_length (c ∷ s) in
    let replaced = replace_clock_ids iface (n - 1) s in
    let kept = replace_clock_ids iface zero s in if n == 0 then c ∷ kept else iface ++ replaced

abbrev replace_by : List Iface → Bytes → Option Bytes → Bytes
replace_by ifaces input none = input
replace_by ifaces input (some id) = replace_clock_ids (iface_of_phc id ifaces) zero input

-- `replaceClockID`
unfoldable pub replace_clock_id : Bytes → List Iface → Bytes → Bytes
unfolding first_clock_id replace_clock_ids iface_of_phc contains
replace_clock_id name ifaces input =
    if not (bytes_eq name (codes "ts2phc"))
    then input
    else if not (contains input (codes "offset"))
    then input
    else replace_by ifaces input (first_clock_id input)

-- `strings.Replace(s, b, "", 1)`
unfoldable pub remove_once : ℕ → Bytes → Bytes
remove_once b [] = []
remove_once b (c ∷ s) = let rest = remove_once b s in if c == b then s else c ∷ rest

unfoldable pub before_colon : Bytes → Bytes
before_colon [] = []
before_colon (c ∷ s) = let rest = before_colon s in if c == b':' then [] else c ∷ rest

-- The name of the configuration in `processStatus`.
unfoldable pub config_of_tag : Bytes → Bytes
unfolding remove_once before_colon
config_of_tag tag = before_colon (remove_once b'[' (remove_once b']' tag))

abbrev is_alnum : ℕ → Bool
is_alnum c = is_digit c || ((leb b'a' c && leb c b'z') || (leb b'A' c && leb c b'Z'))

unfoldable pub alnum_count : Bytes → ℕ
alnum_count [] = 0
alnum_count (c ∷ s) = let rest = alnum_count s in if is_alnum c then suc rest else 0

-- The bytes of a match of `messageTagSuffixRegEx` at the start of a text, and those of its first
-- group; 0 if there is none. A run of letters and digits is as long as it can be.
unfoldable pub suffix_match : Bytes → ℕ × ℕ
unfolding alnum_count has_prefix
suffix_match s =
    let a = alnum_count s in
    let s1 = drop a s in
    let b = alnum_count (drop 1 s1) in
    let s2 = drop b (drop 1 s1) in
    let z = alnum_count (drop 8 s2) in
    let s3 = drop z (drop 8 s2) in
    let w = alnum_count (drop 1 s3) in
    let group = a + 1 + b + 7 in
    if (not (a == 0) && has_prefix s1 (codes "."))
      && ((not (b == 0) && has_prefix s2 (codes ".config:")) && not (z == 0))
    then (group + 1 + z + (if has_prefix s3 (codes ":") && not (w == 0) then 1 + w else 0), group)
    else (0, 0)

-- Every match replaced by its first group; the number counts the bytes that are still to be passed
-- over.
unfoldable pub remove_suffixes : ℕ → Bytes → Bytes
unfolding suffix_match
remove_suffixes k [] = []
remove_suffixes (suc k) (c ∷ s) = remove_suffixes k s
remove_suffixes zero (c ∷ s) =
    let (n, group) = suffix_match (c ∷ s) in
    let replaced = remove_suffixes (n - 1) s in
    let kept = remove_suffixes zero s in if n == 0 then c ∷ kept else take group (c ∷ s) ++ replaced

unfoldable pub remove_braces : Bytes → Bytes
remove_braces [] = []
remove_braces (c ∷ s) =
    let rest = remove_braces s in if (c == b'{') || (c == b'}') then rest else c ∷ rest

-- `removeMessageSuffix`
unfoldable pub remove_message_suffix : Bytes → Bytes
unfolding remove_braces remove_suffixes
remove_message_suffix input = remove_suffixes zero (remove_braces input)

-- What the scanners find: the lines up to the end of the output, or those before one whose write
-- fails, that line, and what the next scanner finds. That one does not get what the scanner before
-- it has buffered.
pub data Scanned : Type 0 where
  ends : List Bytes → Scanned
  breaks : List Bytes → Bytes → Scanned → Scanned

abbrev pub prints_if : Bool → Bytes → List Call
prints_if filtered output = if filtered then [] else prints output ∷ []

-- The calls by the name of the process.
unfoldable pub by_name : Reader → Bytes → List Call
unfolding contains bytes_eq
by_name r output =
    if bytes_eq r.name (codes "ptp4l")
    then (if contains output (codes "selected best master clock") then clock_class ∷ [] else [])
    else if bytes_eq r.name (codes "phc2sys") && ltb 0 r.ha_profiles
    then fails_over output ∷ []
    else []

module _ (is_filtered : Bytes → Bool) where
  -- One line without a socket.
  unfoldable pub read_line : Reader → Bytes → List Call
  unfolding by_name
  read_line r output = prints_if (is_filtered output) output ++ (metrics output ∷ by_name r output)

  -- One line with a socket, up to the write.
  unfoldable pub read_line_to_socket : Reader → Bytes → Reader × List Call
  unfolding by_name replace_clock_id
  read_line_to_socket r output =
      let line = replace_clock_id r.name r.ifaces output ++ b'\n' ∷ [] in
      (
        record r { pmc_check = false },
        (if r.pmc_check then clock_class ∷ [] else [])
            ++ (prints_if (is_filtered output) output ++ (metrics line ∷ by_name r line)),
      )

  -- What is written of a line.
  abbrev pub message : Reader → Bytes → Bytes
  message r output = remove_message_suffix (replace_clock_id r.name r.ifaces output ++ b'\n' ∷ [])

  -- The lines whose writes succeed, and what is left to do then.
  unfoldable pub lines_to_socket : Reader → List Bytes → (Reader → List Call) → List Call
  unfolding read_line_to_socket remove_message_suffix
  lines_to_socket r [] k = k r
  lines_to_socket r (output ∷ outputs) k =
      let (r', calls) = read_line_to_socket r output in
      calls ++ writes (message r output) ∷ lines_to_socket r' outputs k

  -- The goroutine with a socket, from a connection to the end of the output. Each connection makes a
  -- new scanner; a write that fails loses its line and connects again.
  unfoldable pub read_to_socket : Reader → Scanned → List Call
  unfolding lines_to_socket read_line_to_socket config_of_tag remove_message_suffix
  read_to_socket r (ends outputs) =
      status (config_of_tag r.message_tag) 1
      ∷ (map dep_status r.dep_processes ++ lines_to_socket r outputs (λ r. []))
  read_to_socket r (breaks outputs output more) =
      status (config_of_tag r.message_tag) 1
      ∷ (map dep_status r.dep_processes
          ++ lines_to_socket r outputs (λ r'.
            (read_line_to_socket r' output).1
            ++ loses (message r' output) ∷ read_to_socket (record r' { pmc_check = false }) more))
