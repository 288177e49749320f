-- ===== src/Tftp.antt =====
-- The packets of the TFTP server: module_tftp/src/tftp_support.c, with the constants of tftp.h and
-- tftp_conf.h. The byte order functions of the Ethernet library and the application's
-- `tftp_app_process_data_block` are parameters.
pub mod Order
pub mod Transfer
pub mod Second
pub mod Kinds
pub mod Replies
pub mod Handler
pub mod Session
pub mod Calls
pub mod Returns
pub mod Fault
pub mod Sized
pub mod Exchange
pub mod Blocks
pub mod Steps
mod Tests
mod HandlerTests
use sc_xtcp.Base.{
  Bool, List, Option, [], drop, false, get_or, if◌then◌else◌, leb, length, ltb, none, not, some,
  suc, take, true, zero, ℕ, ◌*◌, ◌++◌, ◌+◌, ◌-◌, ◌==◌, ◌>>=◌, ◌||◌, ◌∷◌,
}
use sc_xtcp.Base.Words.{negsuc, pos, ℤ}

-- A block that was passed to the application: its number, its bytes, and the length that was passed,
-- which is negative for a packet that ends in its header.
pub record Block : Type 0 where
  pub num : ℕ
  pub bytes : List ℕ
  pub len : ℤ

-- What the code calls outside: `hton16` and `ntoh16` on the two bytes of an `n16_t`, and the
-- application's answer to a block after the ones that it has.
pub record Env : Type 0 where
  pub hton16 : ℕ → ℕ × ℕ
  pub ntoh16 : ℕ × ℕ → ℕ
  pub process_data_block : List Block → Block → ℕ

-- `prev_block_num`, the variables that the caller passes, and the blocks that went to the application
pub record Tftp : Type 0 where
  pub prev_block_num : ℕ
  pub block_num_glob : ℕ
  pub error : Bool
  pub complete : Bool
  pub received : List Block

abbrev pub opcode_rrq : ℕ
opcode_rrq = 1

abbrev pub opcode_wrq : ℕ
opcode_wrq = 2

abbrev pub opcode_data : ℕ
opcode_data = 3

abbrev pub opcode_ack : ℕ
opcode_ack = 4

abbrev pub opcode_error : ℕ
opcode_error = 5

abbrev pub error_not_defined : ℕ
error_not_defined = 0

abbrev pub error_access_violation : ℕ
error_access_violation = 2

abbrev pub error_disk_full : ℕ
error_disk_full = 3

abbrev pub error_illegal_operation : ℕ
error_illegal_operation = 4

abbrev pub block_size : ℕ
block_size = 512

abbrev pub min_pkt_size : ℕ
min_pkt_size = 4

abbrev pub max_file_size : ℕ
max_file_size = 128 * 1024

-- the bytes of "upgrade.bin", "octet" and the error messages
abbrev pub image_filename : List ℕ
image_filename = 117 ∷ 112 ∷ 103 ∷ 114 ∷ 97 ∷ 100 ∷ 101 ∷ 46 ∷ 98 ∷ 105 ∷ 110 ∷ []

abbrev pub octet : List ℕ
octet = 111 ∷ 99 ∷ 116 ∷ 101 ∷ 116 ∷ []

-- "Read not supported"
abbrev pub read_not_supported : List ℕ
read_not_supported =
    82 ∷ 101 ∷ 97 ∷ 100 ∷ 32 ∷ 110 ∷ 111 ∷ 116 ∷ 32 ∷ 115 ∷ 117 ∷ 112 ∷ 112 ∷ 111 ∷ 114 ∷ 116 ∷ 101
    ∷ 100 ∷ []

-- "Invalid filename"
abbrev pub invalid_filename : List ℕ
invalid_filename =
    73 ∷ 110 ∷ 118 ∷ 97 ∷ 108 ∷ 105 ∷ 100 ∷ 32 ∷ 102 ∷ 105 ∷ 108 ∷ 101 ∷ 110 ∷ 97 ∷ 109 ∷ 101 ∷ []

-- "Invalid transfer mode"
abbrev pub invalid_mode : List ℕ
invalid_mode =
    73 ∷ 110 ∷ 118 ∷ 97 ∷ 108 ∷ 105 ∷ 100 ∷ 32 ∷ 116 ∷ 114 ∷ 97 ∷ 110 ∷ 115 ∷ 102 ∷ 101 ∷ 114 ∷ 32
    ∷ 109 ∷ 111 ∷ 100 ∷ 101 ∷ []

-- "Application error"
abbrev pub application_error : List ℕ
application_error =
    65 ∷ 112 ∷ 112 ∷ 108 ∷ 105 ∷ 99 ∷ 97 ∷ 116 ∷ 105 ∷ 111 ∷ 110 ∷ 32 ∷ 101 ∷ 114 ∷ 114 ∷ 111 ∷ 114
    ∷ []

abbrev pub word_bytes : ℕ × ℕ → List ℕ
word_bytes w = w.0 ∷ w.1 ∷ []

-- What a call leaves in `tx_buf` and returns: the bytes of a reply, whose number is the result, or
-- no reply, the result -1.
abbrev pub Reply : Type 0
Reply = Option (List ℕ)

-- `tftp_make_ack_pkt`
unfoldable pub make_ack_pkt : Env → ℕ → List ℕ
make_ack_pkt env block_num = word_bytes (env.hton16 opcode_ack) ++ word_bytes (env.hton16 block_num)

-- `tftp_make_error_pkt`: the assertion on the length of the message fails as `none`.
unfoldable pub make_error_pkt : Env → ℕ → List ℕ → Option (List ℕ)
make_error_pkt env code msg =
    if ltb (length msg) 25
    then some
        (word_bytes (env.hton16 opcode_error) ++ word_bytes (env.hton16 code) ++ msg ++ 0 ∷ [])
    else none

-- `tftp_process_app_error`
unfoldable pub process_app_error : Env → Option (List ℕ)
process_app_error env = make_error_pkt env error_not_defined application_error

-- a reply that signals an error
unfoldable pub reject : Env → ℕ → List ℕ → Tftp → Option (Tftp × Reply)
reject env code msg s =
    make_error_pkt env code msg >>= λ p. some (record s { error = true }, some p)

-- `strncmp(s, t, n) == 0`; a read past the end of the buffer fails.
unfoldable pub str_eq : ℕ → List ℕ → List ℕ → Option Bool
str_eq zero s t = some true
str_eq (suc n) [] t = none
str_eq (suc n) (x ∷ xs) [] = some (x == 0)
str_eq (suc n) (x ∷ xs) (y ∷ ys) =
    let rest = str_eq n xs ys in if x == y then (if x == 0 then some true else rest) else some false

-- the string after a string and its null byte
unfoldable pub next_string : List ℕ → Option (List ℕ)
next_string [] = none
next_string (x ∷ xs) = let rest = next_string xs in if x == 0 then some xs else rest

-- TFTP_OPCODE_WRQ, with TFTP_ACCEPT_ANY_FILENAME 0
unfoldable pub write_request : Env → List ℕ → Tftp → Option (Tftp × Reply)
write_request env filename s = do
  named ← str_eq 11 filename image_filename
  if not named
      then reject env error_not_defined invalid_filename s
      else (next_string filename >>= λ mode. str_eq 5 mode octet >>= λ binary.
          if not binary
          then reject env error_not_defined invalid_mode s
          else some (s, some (make_ack_pkt env 0)))

-- `num_bytes - TFTP_MIN_PKT_SIZE`
abbrev pub data_len : ℕ → ℤ
data_len n = if ltb n min_pkt_size then negsuc (min_pkt_size - n - 1) else pos (n - min_pkt_size)

abbrev pub read16 : Env → List ℕ → ℕ → ℕ
read16 env rx i = env.ntoh16 (get_or rx i 0, get_or rx (i + 1) 0)

-- the block that is next
unfoldable pub accept_block : Env → Block → Tftp → Option (Tftp × Reply)
accept_block env b s =
    let s1 = record s { prev_block_num = b.num } in
    let s2 = record s1 { received = s.received ++ b ∷ [] } in
    if leb max_file_size (b.num * block_size)
    then reject env error_disk_full [] s1
    else if not (env.process_data_block s.received b == 0)
    then reject env error_access_violation [] s2
    else some (s2, some (make_ack_pkt env b.num))

-- TFTP_OPCODE_DATA
unfoldable pub data_packet : Env → List ℕ → ℕ → Tftp → Option (Tftp × Reply)
data_packet env rx num_bytes s =
    let block_num = read16 env rx 2 in
    let block : Block = record {
      num = block_num;
      bytes = take (num_bytes - min_pkt_size) (drop min_pkt_size rx);
      len = data_len num_bytes;
    } in
    let s1 = record s {
      complete = s.complete || ltb num_bytes (block_size + min_pkt_size);
      block_num_glob = block_num;
    } in
    if block_num == s.prev_block_num + 1
    then accept_block env block s1
    else some (s1, some (make_ack_pkt env block_num))

-- `tftp_process_packet`
unfoldable pub process_packet : Env → List ℕ → ℕ → Tftp → Option (Tftp × Reply)
process_packet env rx num_bytes s =
    let opcode = read16 env rx 0 in
    if opcode == opcode_rrq
    then reject env error_not_defined read_not_supported s
    else if opcode == opcode_wrq
    then write_request env (drop 2 rx) s
    else if opcode == opcode_data
    then data_packet env rx num_bytes s
    else if opcode == opcode_ack
    then reject env error_illegal_operation [] s
    else if opcode == opcode_error
    then some (s, none)
    else reject env error_illegal_operation [] s
