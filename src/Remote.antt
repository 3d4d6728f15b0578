-- ===== src/Remote.antt =====
-- crates/stanchion-remote/src/frame.rs: JSON-RPC messages, one to a line. serde_json is the
-- parameter `Codec`. A reader is the list of what `fill_buf` gives: a buffer or an error; where it
-- is used up, the stream has come to its end.
pub mod Chunks
pub mod Rounds
pub mod Framing
use stanchion.Prelude.{
  ℕ, zero, suc, ◌+◌, ◌-◌, ◌*◌, Bool, true, false, not, ◌&&◌, ◌||◌, Option, none, some, List, [],
  ◌∷◌, ◌++◌, ltb, leb, ◌==◌, if◌then◌else◌, length, Outcome, ok, err, Text, codes, trim, is_empty,
  u64_max,
}

abbrev pub Bytes : Type 0
Bytes = List ℕ

-- `jsonrpsee_types::Id`, as `owned_id` rebuilds it
pub data RequestId : Type 0 where
  null : RequestId
  number : ℕ → RequestId
  str : Text → RequestId

-- `J` is a JSON value, `E` an error object. The version marker has one value and no field here.
pub record Request (J : Type 0) : Type 0 where
  pub id : RequestId
  pub method : Text
  pub params : Option J

pub record Response (J E : Type 0) : Type 0 where
  pub id : RequestId
  pub result : Option J
  pub error : Option E

unfoldable pub new_request : {J : Type 0} → ℕ → Text → J → Request J
new_request id method params = record { id = number id; method = method; params = some params }

module _ {J E : Type 0} where
  unfoldable pub ok_response : RequestId → J → Response J E
  ok_response id result = record { id = id; result = some result; error = none }

  unfoldable pub failed_response : RequestId → E → Response J E
  failed_response id error = record { id = id; result = none; error = some error }

pub data Incoming (J E : Type 0) : Type 0 where
  request : Request J → Incoming J E
  response : Response J E → Incoming J E

pub data FrameError : Type 0 where
  io_failed malformed : Text → FrameError
  over_limit not_utf8 both_shapes no_shape : FrameError

abbrev pub max_frame_bytes : ℕ
max_frame_bytes = 33554432

-- a write gives what it adds to the stream
unfoldable pub write : {T : Type 0} → (T → Outcome Text Bytes) → T → Outcome FrameError Bytes
write to_vec message = elim (to_vec message) [
  | err e ↦ err (malformed e)
  | ok line ↦ if ltb max_frame_bytes (length line) then err over_limit else ok (line ++ b'\n' ∷ [])
]

-- `std::str::from_utf8`: the code points, where the bytes are valid
abbrev pub within : ℕ → ℕ → ℕ → Bool
within low high byte = leb low byte && leb byte high

-- a first byte: how many bytes follow, its part of the code, and the range of the second byte
pub record Lead : Type 0 where
  pub count : ℕ
  pub part : ℕ
  pub low : ℕ
  pub high : ℕ

unfoldable pub lead : ℕ → Option Lead
lead byte =
    if ltb byte 128
    then some (record { count = 0; part = byte; low = 128; high = 191 })
    else if within 194 223 byte
    then some (record { count = 1; part = byte - 192; low = 128; high = 191 })
    else if within 224 239 byte
    then some (record {
      count = 2;
      part = byte - 224;
      low = if byte == 224 then 160 else 128;
      high = if byte == 237 then 159 else 191;
    })
    else if within 240 244 byte
    then some (record {
      count = 3;
      part = byte - 240;
      low = if byte == 240 then 144 else 128;
      high = if byte == 244 then 143 else 191;
    })
    else none

abbrev pub cons_code : ℕ → Option Text → Option Text
cons_code code none = none
cons_code code (some text) = some (code ∷ text)

-- `std::str::from_utf8`, with the number of bytes that a character still wants, its code so far, and
-- the range of the next byte
unfoldable pub decode : ℕ → ℕ → ℕ → ℕ → Bytes → Option Text
unfolding lead
decode zero code low high [] = some []
decode (suc n) code low high [] = none
decode zero code low high (byte ∷ bytes) = elim (lead byte) [
  | none ↦ none
  | some l ↦ elim l.count [
    | zero ↦ cons_code l.part (decode zero 0 0 0 bytes)
    | suc n ↦ decode (suc n) l.part l.low l.high bytes
  ]
]
decode (suc n) code low high (byte ∷ bytes) = elim (within low high byte) [
  | false ↦ none
  | true ↦
      let more = code * 64 + (byte - 128) in
      elim n [
        | zero ↦ cons_code more (decode zero 0 0 0 bytes)
        | suc m ↦ decode (suc m) more 128 191 bytes
      ]
]

unfoldable pub from_utf8 : Bytes → Option Text
unfolding decode
from_utf8 bytes = decode zero 0 0 0 bytes

abbrev pub Reader : Type 0
Reader = List (Outcome Text Bytes)

-- what is left of a buffer after `consume`
abbrev pub unread : Bytes → Reader → Reader
unread [] reader = reader
unread (byte ∷ bytes) reader = ok (byte ∷ bytes) ∷ reader

-- a buffer up to its first newline and with it, and what follows
unfoldable pub cut_line : Bytes → Option (Bytes × Bytes)
cut_line [] = none
cut_line (byte ∷ bytes) =
    let rest = cut_line bytes in
    if byte == b'\n'
    then some (byte ∷ [], bytes)
    else elim rest [ none ↦ none | some (a, b) ↦ some (byte ∷ a, b) ]

abbrev pub usize_max : ℕ
usize_max = u64_max

abbrev pub saturating_add : ℕ → ℕ → ℕ
saturating_add a b = if leb (a + b) usize_max then a + b else usize_max

-- the count and the line so far, and the reader as it is left
unfoldable pub read_limited : Reader → Bytes → ℕ → Outcome FrameError (ℕ × Bytes) × Reader
unfolding cut_line
read_limited [] out total = (ok (total, out), [])
read_limited (err e ∷ reader) out total = (err (io_failed e), reader)
read_limited (ok [] ∷ reader) out total = (ok (total, out), ok [] ∷ reader)
read_limited (ok (byte ∷ bytes) ∷ reader) out total = elim (cut_line (byte ∷ bytes)) [
  | some (chunk, rest) ↦
      (ok (saturating_add total (length chunk), out ++ chunk), unread rest reader)
  | none ↦
      let more = saturating_add total (length (byte ∷ bytes)) in
      elim (ltb max_frame_bytes more) [
        | true ↦ (err over_limit, reader)
        | false ↦ read_limited reader (out ++ byte ∷ bytes) more
      ]
]

-- the number of bytes that a reader still gives
unfoldable pub size : Reader → ℕ
size [] = 0
size (err e ∷ reader) = size reader
size (ok bytes ∷ reader) = length bytes + size reader

-- serde_json's part
pub record Codec (J E : Type 0) : Type 0 where
  pub from_str : Text → Outcome Text J
  -- whether an object has the field
  pub has_field : J → Text → Bool
  pub request_of : J → Outcome Text (Request J)
  pub response_of : J → Outcome Text (Response J E)

module _ {J E : Type 0} (codec : Codec J E) where
  -- one message, told by its shape
  unfoldable pub classify : J → Outcome FrameError (Incoming J E)
  classify value =
      let has_method = codec.has_field value (codes "method") in
      let has_reply =
        codec.has_field value (codes "result") || codec.has_field value (codes "error") in
      if has_method
      then (if has_reply
          then err both_shapes
          else elim (codec.request_of value) [ ok r ↦ ok (request r) | err e ↦ err (malformed e) ])
      else if has_reply
      then elim (codec.response_of value) [ ok r ↦ ok (response r) | err e ↦ err (malformed e) ]
      else err no_shape

  -- what a line gives: nothing where it is blank
  unfoldable pub parse_line : Bytes → Outcome FrameError (Option (Incoming J E))
  unfolding classify from_utf8
  parse_line line = elim (from_utf8 line) [
    | none ↦ err not_utf8
    | some text ↦ elim (is_empty (trim text)) [
      | true ↦ ok none
      | false ↦ elim (codec.from_str text) [
        | err e ↦ err (malformed e)
        | ok value ↦ elim (classify value) [ ok message ↦ ok (some message) | err e ↦ err e ]
      ]
    ]
  ]

  -- the loop of `read`, on fuel: `none` where the fuel runs out
  unfoldable pub rounds : ℕ → Reader → Option (Outcome FrameError (Option (Incoming J E)) × Reader)
  unfolding read_limited parse_line
  rounds zero reader = none
  rounds (suc fuel) reader =
      let answer = read_limited reader [] 0 in
      elim answer.0 [
        | err e ↦ some (err e, answer.1)
        | ok (zero, line) ↦ some (ok none, answer.1)
        | ok (suc n, line) ↦ elim (parse_line line) [
          | err e ↦ some (err e, answer.1)
          | ok (some message) ↦ some (ok (some message), answer.1)
          | ok none ↦ rounds fuel answer.1
        ]
      ]

  -- each round but the last takes a byte or more
  unfoldable pub read : Reader → Option (Outcome FrameError (Option (Incoming J E)) × Reader)
  unfolding rounds size
  read reader = rounds (suc (size reader)) reader
