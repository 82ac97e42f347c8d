-- ===== src/Util/Base64/Tests.antt =====
-- Concrete texts.
use libnodecc.Prelude.{◌≡◌, arith, codes, true, false, inr, none, [], refl, some, ◌>>=◌}
use libnodecc.Util.Base64.{encode, decode}
use libnodecc.Util.Base64.Reference.{reference}
use libnodecc.Util.Base64.Encode.{encode-reference}
use libnodecc.Util.Base64.RoundTrip.{decode-encode}

-- Thirteen bytes, one word group and a byte.
encode-reference_example :
    encode false 4096 (codes "hello, world!") ≡ some (codes "aGVsbG8sIHdvcmxkIQ==")
unfolding reference
encode-reference_example = encode-reference false 4096 (codes "hello, world!") (ground arith)

-- The same bytes at an address that is no multiple of 4, and no bytes at null.
encode_unaligned : encode false 4097 (codes "hello, world!") ≡ none
encode_unaligned = encode-reference false 4097 (codes "hello, world!") (ground arith)

encode_null : encode false 0 [] ≡ none
encode_null = encode-reference false 0 [] (ground arith)

decode_null : decode 0 [] ≡ none
unfolding decode
decode_null = refl

decode-encode_example :
    (encode true 4096 (codes "hello, world!") >>= decode 8192) ≡ some (codes "hello, world!")
decode-encode_example =
    decode-encode true 4096 8192 (codes "hello, world!") (ground arith) (omega arith) (omega arith)
      (inr (omega arith))
