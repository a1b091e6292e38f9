-- ===== src/Tests/Rlp.antt =====
-- RLP at concrete inputs.
use thelonious.Base.{◌+◌, ◌≡◌, refl, arith, [], ◌∷◌, ◌++◌, length, ok, panic, slice as slice_of}
use thelonious.Rlp.Values.{Value, bytes, uint, str, slice, empty, item}
use thelonious.Rlp.Encode.{encode, write_slice_header, encode_bytes, encode_big}
use thelonious.Util.Big.{big_bytes}
use thelonious.Rlp.Decode.{decode, index_within, kind, add64, decode_short_bytes, sub64}
use thelonious.Rlp.RoundTrip.{decoded, is_encodable, decode-encode}
use thelonious.Rlp.Total.{Ends, decode-Ends}

-- ["dog", 1024, []]
abbrev sample : Value
sample = slice (item (str (100 ∷ 111 ∷ 103 ∷ [])) (item (uint 1024) (item (slice empty) empty)))

encode_runs : encode sample ≡ 0xc8 ∷ 0x83 ∷ 100 ∷ 111 ∷ 103 ∷ 0x82 ∷ 4 ∷ 0 ∷ 0xc0 ∷ []
unfolding encode write_slice_header encode_bytes encode_big big_bytes
encode_runs = refl

decode_runs :
    decode 9 (0xc8 ∷ 0x83 ∷ 100 ∷ 111 ∷ 103 ∷ 0x82 ∷ 4 ∷ 0 ∷ 0xc0 ∷ []) 0 ≡ ok (decoded sample, 9)
unfolding decode index_within decoded kind add64 decode_short_bytes slice_of sub64 big_bytes
decode_runs = refl

-- A size that runs past the end.
decode_overrun : decode 2 (0x83 ∷ 1 ∷ []) 0 ≡ panic
unfolding decode index_within kind decode_short_bytes slice_of add64
decode_overrun = refl

-- A size that runs past the end of the slice, and not of its array.
decode_beyond : decode 2 (0x83 ∷ 1 ∷ 7 ∷ 8 ∷ 9 ∷ []) 0 ≡ ok (bytes (1 ∷ 7 ∷ 8 ∷ []), 4)
unfolding decode index_within kind decode_short_bytes slice_of add64
decode_beyond = refl

decode-encode_example :
    decode 12 ((9 ∷ []) ++ (encode sample ++ (1 ∷ 2 ∷ []))) 1
    ≡ ok (decoded sample, 1 + length (encode sample))
unfolding encode is_encodable write_slice_header encode_bytes encode_big big_bytes
decode-encode_example =
    decode-encode 12 (9 ∷ []) sample (1 ∷ 2 ∷ []) refl (omega arith) (omega arith)

decode-Ends_example : Ends 1 3 (decode 2 (0xc8 ∷ 0x83 ∷ 100 ∷ []) 0)
decode-Ends_example = decode-Ends 2 (0xc8 ∷ 0x83 ∷ 100 ∷ []) 0 (omega arith)
