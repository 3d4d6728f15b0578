-- ===== src/Tests/RemoteTests.antt =====
-- A request read off a stream that is cut into small buffers, behind two empty lines.
use stanchion.Prelude.{
  inl, Bool, if◌then◌else◌, ◌+◌, ◌≤◌, ◌≡◌, refl, Option, none, some, [], ◌∷◌, arith, length,
  Outcome, ok, err, Text, codes, text_eq, is_empty, trim,
}
use stanchion.Remote.{
  from_utf8, Bytes, FrameError, Incoming, request, response, number, ok_response, new_request,
  Codec, Reader, read, read_limited, max_frame_bytes,
}
use stanchion.Remote.Rounds.{read-total, read_limited-length}
use stanchion.Remote.Framing.{IsSerialised}

-- JSON that is kept as its text, where `[]` is a response and every other text a request
abbrev is_reply : Text → Bool
is_reply value = text_eq value (codes "[]\n")

abbrev codec : Codec Text Text
codec = record {
  from_str = λ text. ok text;
  has_field = λ value name.
      if is_reply value then text_eq name (codes "result") else text_eq name (codes "method");
  request_of = λ value. ok (new_request 1 (codes "host/info") value);
  response_of = λ value. ok (ok_response (number 1) value);
}

abbrev to_vec : Incoming Text Text → Outcome Text Bytes
to_vec (request r) = ok (codes "{}")
to_vec (response p) = ok (codes "[]")

abbrev info : Incoming Text Text
info = request (new_request 1 (codes "host/info") (codes "{}\n"))

abbrev reply : Incoming Text Text
reply = response (ok_response (number 1) (codes "[]\n"))

-- "\n\n{}\nA", in buffers of two bytes at most
abbrev stream : Reader
stream = ok (10 ∷ []) ∷ ok (10 ∷ 123 ∷ []) ∷ ok (125 ∷ []) ∷ ok (10 ∷ 65 ∷ []) ∷ []

reply-IsSerialised : IsSerialised codec to_vec reply
unfolding text_eq from_utf8 is_empty trim
reply-IsSerialised = record {
  bytes = codes "[]";
  text = codes "[]\n";
  value = codes "[]\n";
  serialises = refl;
  one_line = refl;
  is_utf8 = refl;
  not_blank = refl;
  parses = refl;
  shaped = (refl, inl refl, refl);
}

read-total_example :
    (result : Outcome FrameError (Option (Incoming Text Text)) × Reader) × (read codec
        (err (codes "reset") ∷ [])
      ≡ some result)
read-total_example = read-total codec (err (codes "reset") ∷ [])

abbrev line : Bytes
line = 65 ∷ 66 ∷ 10 ∷ []

line_read : read_limited (ok (65 ∷ []) ∷ ok (66 ∷ 10 ∷ []) ∷ []) [] 0 ≡ (ok (3, line), [])
unfolding read_limited
line_read = refl

read_limited-length_example : length line ≤ max_frame_bytes + 2
read_limited-length_example =
    read_limited-length 2 (ok (65 ∷ []) ∷ ok (66 ∷ 10 ∷ []) ∷ []) [] 0
      (omega arith, (omega arith, tt)) refl (omega arith) line_read

characters_decoded : from_utf8 (195 ∷ 169 ∷ 226 ∷ 152 ∷ 131 ∷ []) ≡ some (233 ∷ 9731 ∷ [])
unfolding from_utf8
characters_decoded = refl

overlong_refused : from_utf8 (192 ∷ 175 ∷ []) ≡ none
unfolding from_utf8
overlong_refused = refl
