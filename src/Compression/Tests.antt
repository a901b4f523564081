-- ===== src/Compression/Tests.antt =====
-- The loops of compression.cpp with a zlib that keeps the bytes as they are.
use asio_http.Base.{◌≡◌, refl, Bytes, codes}
use asio_http.Compression.{ZResult, block_size, compress, decompress_gzip, ended}
use asio_http.Compression.Blocks.{Emits, compress-Emits, decompress_gzip-Emits}
use asio_http.Compression.Samples.{copy, copying, copy-IsProgressing}

compress-Emits_example :
    (r : ZResult) × (out : Bytes) × Emits copy block_size (codes "abc") r out
    × (compress copying (codes "abc") ≡ ended (r, out))
compress-Emits_example = compress-Emits copying (codes "abc") (codes "abc") copy-IsProgressing refl

decompress_gzip-Emits_example :
    (r : ZResult) × (out : Bytes) × Emits copy block_size (codes "abc") r out
    × (decompress_gzip copying (codes "abc") ≡ out)
decompress_gzip-Emits_example =
    decompress_gzip-Emits copying (codes "abc") (codes "abc") copy-IsProgressing refl
