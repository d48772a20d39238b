-- ===== src/UsbUpgrade.antt =====
-- lib/openathan-core/include/openathan/usb_upgrade.h: the chunks of an upgrade over USB and their
-- acknowledgements. Bytes are lists of numbers below 256.
use openathan.Base.{
  ℕ, ◌+◌, ◌<◌, ◌≤◌, ◌≡◌, ◌%◌, ◌^◌, ◌||◌, Option, none, some, List, length, drop, replicate, set,
  get_or, ltb, leb, ◌==◌, ◌++◌, if◌then◌else◌, arith,
}
use openathan.Bytes.{u32_mod, put_bytes, read_bytes, put_u32, read_u32, double_word_bytes}

abbrev pub header_size : ℕ
header_size = 13

pub record Chunk : Type 0 where
  pub token : ℕ
  pub kind : ℕ
  pub offset : ℕ
  pub bytes : List ℕ

unfoldable pub decode : List ℕ → Option Chunk
decode bytes =
    let token = read_bytes 8 bytes 0 in
    if leb (length bytes) header_size || ltb 255 (length bytes) || ltb 1 (get_or bytes 8 0)
    then none
    else if token == 0
    then none
    else some (record {
      token = token;
      kind = get_or bytes 8 0;
      offset = read_u32 bytes 9;
      bytes = drop header_size bytes;
    })

unfoldable pub ack : Chunk → List ℕ
ack chunk =
    let next = (chunk.offset + length chunk.bytes) % u32_mod in
    put_u32 (set (put_bytes 8 (replicate header_size 0) 0 chunk.token) 8 chunk.kind) 9 next

-- The acknowledgement of a chunk with a nonzero token of 64 bits and a kind of 0 or 1 is the header
-- of its successor: with any payload of 1 to 242 bytes behind it, it is accepted as the chunk of
-- the same transfer that goes on where the acknowledged one ends.
pub decode-ack :
    (c : Chunk) (payload : List ℕ)
    → 0 < c.token
    → c.token < 2 ^ 64
    → c.kind ≤ 1
    → 0 < length payload
    → length payload ≤ 242
    → decode (ack c ++ payload)
      ≡ some (record {
        token = c.token;
        kind = c.kind;
        offset = (c.offset + length c.bytes) % u32_mod;
        bytes = payload;
      })
unfolding decode ack
decode-ack c payload positive small kind some_bytes few =
    ground (arith, double_word_bytes c.token small)
