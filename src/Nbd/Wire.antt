-- ===== src/Nbd/Wire.antt =====
-- The numbers and messages of the NBD protocol, libwnbd/nbd_protocol.h. A buffer is the list of its
-- bytes; the numbers in a packed structure are big-endian, but for handles, which are sent as they lie
-- in memory, lowest byte first.
use wnbd.Prelude.{ℕ, ◌+◌, ◌*◌, ◌/◌, ◌%◌, ◌^◌, List, [], ◌∷◌, Bool, ◌&&◌, ◌==◌, get_or}

abbrev pub big2 : ℕ → List ℕ
big2 v = v / 2 ^ 8 % 256 ∷ v % 256 ∷ []

abbrev pub big4 : ℕ → List ℕ
big4 v = v / 2 ^ 24 % 256 ∷ v / 2 ^ 16 % 256 ∷ v / 2 ^ 8 % 256 ∷ v % 256 ∷ []

abbrev pub big8 : ℕ → List ℕ
big8 v = v / 2 ^ 56 % 256 ∷ v / 2 ^ 48 % 256 ∷ v / 2 ^ 40 % 256 ∷ v / 2 ^ 32 % 256 ∷ big4 v

abbrev pub little8 : ℕ → List ℕ
little8 v =
    v % 256
    ∷ v / 2 ^ 8 % 256
    ∷ v / 2 ^ 16 % 256
    ∷ v / 2 ^ 24 % 256
    ∷ v / 2 ^ 32 % 256
    ∷ v / 2 ^ 40 % 256
    ∷ v / 2 ^ 48 % 256
    ∷ v / 2 ^ 56 % 256
    ∷ []

abbrev byte_at : List ℕ → ℕ → ℕ
byte_at b i = get_or b i 0

-- The number at an offset of a buffer.
abbrev pub from_big2 : List ℕ → ℕ → ℕ
from_big2 b i = byte_at b i * 2 ^ 8 + byte_at b (i + 1)

abbrev pub from_big4 : List ℕ → ℕ → ℕ
from_big4 b i = from_big2 b i * 2 ^ 16 + from_big2 b (i + 2)

abbrev pub from_big8 : List ℕ → ℕ → ℕ
from_big8 b i = from_big4 b i * 2 ^ 32 + from_big4 b (i + 4)

abbrev pub from_little8 : List ℕ → ℕ → ℕ
from_little8 b i =
    byte_at b i
    + byte_at b (i + 1) * 2 ^ 8
    + byte_at b (i + 2) * 2 ^ 16
    + byte_at b (i + 3) * 2 ^ 24
    + byte_at b (i + 4) * 2 ^ 32
    + byte_at b (i + 5) * 2 ^ 40
    + byte_at b (i + 6) * 2 ^ 48
    + byte_at b (i + 7) * 2 ^ 56

-- The bit 2 ^ k of a number of flags.
abbrev pub has_bit : ℕ → ℕ → Bool
has_bit k flags = flags / 2 ^ k % 2 == 1

abbrev pub request_magic : ℕ
request_magic = 0x25609513

abbrev pub reply_magic : ℕ
reply_magic = 0x67446698

abbrev pub client_magic : ℕ
client_magic = 0x00420281861253

abbrev pub option_magic : ℕ
option_magic = 0x49484156454F5054

abbrev pub handshake_reply_magic : ℕ
handshake_reply_magic = 0x3e889045565a9

-- INIT_PASSWD, "NBDMAGIC"
abbrev pub init_passwd : List ℕ
init_passwd = 78 ∷ 66 ∷ 68 ∷ 77 ∷ 65 ∷ 71 ∷ 73 ∷ 67 ∷ []

-- CHECK_NBD_FLAG: bit `k`, if the server sends flags at all.
abbrev pub check_flag : ℕ → ℕ → Bool
check_flag k flags = has_bit 0 flags && has_bit k flags

-- The bits of NBD_FLAG_READ_ONLY, SEND_FLUSH, SEND_FUA and SEND_TRIM.
abbrev pub bit_read_only : ℕ
bit_read_only = 1

abbrev pub bit_send_flush : ℕ
bit_send_flush = 2

abbrev pub bit_send_fua : ℕ
bit_send_fua = 3

abbrev pub bit_send_trim : ℕ
bit_send_trim = 5

-- NbdRequestType, with NBD_CMD_FLAG_FUA for a write.
pub data Command : Type 0 where
  cmd_read cmd_disc cmd_flush cmd_trim : Command
  cmd_write : Bool → Command

-- NBD_HANDSHAKE_RPL with its data
pub record HandshakeReply : Type 0 where
  pub magic : ℕ
  pub option : ℕ
  pub reply_type : ℕ
  pub data_bytes : List ℕ

-- NBD_REPLY
pub record Reply : Type 0 where
  pub magic : ℕ
  pub error : ℕ
  pub handle : ℕ

-- NBD_BLOCK_SIZE_INFO
pub record BlockSizeInfo : Type 0 where
  pub minimum : ℕ
  pub preferred : ℕ
  pub maximum : ℕ
  pub received : Bool
