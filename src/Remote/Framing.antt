-- ===== src/Remote/Framing.antt =====
-- A message that is written is read back, however the stream is cut into buffers.
use stanchion.Prelude.{
  ℕ, zero, suc, ◌≡◌, ◌⊎◌, codes, true, false, some, [], ◌∷◌, ◌++◌, Outcome, ok, Text, is_empty,
  trim,
}
use stanchion.Remote.{Bytes, Incoming, request, response, Codec, from_utf8}
use stanchion.Remote.Chunks.{no_newline}

-- The JSON object has the fields of this message and not those of the other kind, and serde reads
-- the message out of it.
abbrev pub HasShape : {J E : Type 0} → Codec J E → J → Incoming J E → Type 0
HasShape codec value (request r) =
    (codec.has_field value (codes "method") ≡ true)
    × (codec.has_field value (codes "result") ≡ false)
    × (codec.has_field value (codes "error") ≡ false)
    × (codec.request_of value ≡ ok r)
HasShape codec value (response p) =
    (codec.has_field value (codes "method") ≡ false)
    × ((codec.has_field value (codes "result") ≡ true)
        ⊎ (codec.has_field value (codes "error") ≡ true))
    × (codec.response_of value ≡ ok p)

-- What the serialisation of a message is: one line of text that is valid UTF-8, is not blank, parses
-- as JSON, and has the shape of this message.
pub record IsSerialised {J E : Type 0} (codec : Codec J E)
    (to_vec : Incoming J E → Outcome Text Bytes) (message : Incoming J E) : Type 0 where
  pub bytes : Bytes
  pub text : Text
  pub value : J
  pub serialises : to_vec message ≡ ok bytes
  pub one_line : no_newline bytes ≡ true
  pub is_utf8 : from_utf8 (bytes ++ b'\n' ∷ []) ≡ some text
  pub not_blank : is_empty (trim text) ≡ false
  pub parses : codec.from_str text ≡ ok value
  pub shaped : HasShape codec value message

module _ {J E : Type 0} (codec : Codec J E) where
  -- The line is text that parses as JSON of the message's shape.
  abbrev pub Tells : Bytes → Incoming J E → Type 0
  Tells line message =
      (text : Text) × (value : J) × (from_utf8 line ≡ some text)
      × (codec.from_str text ≡ ok value)
      × HasShape codec value message

abbrev pub newlines : ℕ → Bytes
newlines zero = []
newlines (suc n) = b'\n' ∷ newlines n
