-- ===== src/Base64/StreamTests.antt =====
-- The stream decoder at a concrete input.
use ua_5308_smtp.Prelude.{◌≡◌, [], ◌++◌, codes}
use ua_5308_smtp.Base64.StreamDecoder.{decode_stream, ◌>>=◌}
use ua_5308_smtp.Base64.Stream.{decode_stream-append}

decode_stream-append_example :
    decode_stream [] (codes "YW" ++ codes "55")
    ≡ (decode_stream [] (codes "YW") >>= λ b. decode_stream b (codes "55"))
decode_stream-append_example = decode_stream-append [] (codes "YW") (codes "55")
