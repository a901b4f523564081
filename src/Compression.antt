-- ===== src/Compression.antt =====
-- implementation/compression.cpp: compression to gzip, and decompression of gzip and deflate.
-- zlib is a parameter.
pub mod Blocks
pub mod Samples
mod Tests
use asio_http.Base.{
  ℕ, zero, suc, ◌+◌, ◌-◌, ◌*◌, ◌%◌, ◌^◌, Option, none, some, List, [], ◌∷◌, ◌++◌, Bytes, length,
  take, drop, ltb, if◌then◌else◌, is_empty,
}

pub data ZResult : Type 0 where
  z_ok z_stream_end z_buf_error : ZResult
  z_error : ℕ → ZResult

-- What the file calls of zlib. A stream has its input set. `deflate s n` and `inflate s n` are given
-- a buffer of `n` bytes: they return what they wrote to it and the stream after the call.
-- `pending` bounds the calls that still return Z_OK: it is not part of zlib, and gives the fuel.
-- `uncompress data n` is given a buffer of `n` bytes, and returns what it wrote to it.
pub record Zlib : Type 1 where
  pub Stream : Type 0
  pub deflate_init : ℕ → Bytes → Option Stream
  pub deflate : Stream → ℕ → ZResult × (Bytes × Stream)
  pub inflate_init : Bytes → Option Stream
  pub inflate : Stream → ℕ → ZResult × (Bytes × Stream)
  pub pending : Stream → ℕ
  pub uncompress : Bytes → ℕ → ZResult × Bytes

abbrev pub z_best_compression : ℕ
z_best_compression = 9

abbrev pub block_size : ℕ
block_size = 32768

-- `std::vector<Bytef>(n)`
unfoldable pub zeros : ℕ → Bytes
zeros zero = []
zeros (suc n) = 0 ∷ zeros n

-- The part of the buffer that holds what is not yet in the result: zlib counts all it wrote.
unfoldable pub append_block : (total_out : ℕ) (outbuffer result : Bytes) → Bytes
append_block total_out outbuffer result =
    if ltb (length result) total_out
    then result ++ take (total_out - length result) outbuffer
    else result

-- What one call of zlib leaves: what the call returned, the stream, `total_out`, the buffer that it
-- wrote to from its start, and the result with the new part of the buffer.
unfoldable pub after_call {ℓ} :
    {S : Type ℓ}
    → (total_out : ℕ) (outbuffer result : Bytes) → ZResult × (Bytes × S)
    → ZResult × (S × (ℕ × (Bytes × Bytes)))
unfolding append_block
after_call total outbuffer result (r, (written, s)) = (
  r,
  (
    s,
    (
      total + length written,
      (
        written ++ drop (length written) outbuffer,
        append_block (total + length written) (written ++ drop (length written) outbuffer) result,
      ),
    ),
  ),
)

-- The condition of the loops: another round after Z_OK.
abbrev pub while_ok {ℓ} :
    {S : Type ℓ}
    → (S → ℕ → Bytes → Bytes → ZResult × Bytes)
    → ZResult × (S × (ℕ × (Bytes × Bytes)))
    → ZResult × Bytes
while_ok again (z_ok, (s, (total, (outbuffer, result)))) = again s total outbuffer result
while_ok again (r, (s, (total, (outbuffer, result)))) = (r, result)

-- The do-while loop of `compress` and of `decompress_gzip`. Without fuel it gives Z_BUF_ERROR.
unfoldable pub blocks {ℓ} :
    {S : Type ℓ}
    → (S → ℕ → ZResult × (Bytes × S))
    → ℕ
    → S
    → (total_out : ℕ) (outbuffer result : Bytes) → ZResult × Bytes
unfolding after_call
blocks step zero s total_out outbuffer result = (z_buf_error, result)
blocks step (suc fuel) s total_out outbuffer result =
    while_ok (blocks step fuel) (after_call total_out outbuffer result (step s (length outbuffer)))

-- The result is kept if the stream was ended.
abbrev pub ended : ZResult × Bytes → Bytes
ended (z_stream_end, result) = result
ended (r, result) = []

-- What the stream is given of a vector: `avail_in` has 32 bits.
abbrev pub given_in : Bytes → Bytes
given_in bytes = take (length bytes % 2 ^ 32) bytes

module _ (z : Zlib) where
  -- `compress(data, compression_level)`
  unfoldable pub compress_level : Bytes → ℕ → Bytes
  unfolding blocks zeros
  compress_level bytes compression_level =
      elim (z.deflate_init compression_level (given_in bytes)) [
        | none ↦ []
        | some s ↦ ended (blocks z.deflate (suc (z.pending s)) s 0 (zeros block_size) [])
      ]

  unfoldable pub compress : Bytes → Bytes
  unfolding compress_level
  compress bytes = compress_level bytes z_best_compression

  unfoldable pub decompress_gzip : Bytes → Bytes
  unfolding blocks zeros
  decompress_gzip bytes = elim (z.inflate_init (given_in bytes)) [
    | none ↦ []
    | some s ↦ (blocks z.inflate (suc (z.pending s)) s 0 (zeros block_size) []).1
  ]

  -- The do-while loop of `decompress_deflate`, with the size that the previous round left, and its
  -- last test.
  unfoldable pub grow : ℕ → Bytes → (size : ℕ) → Bytes
  grow zero bytes size = []
  grow (suc fuel) bytes size =
      let (r, out) = z.uncompress bytes (size * 2 % 2 ^ 64) in
      elim r [ z_buf_error ↦ grow fuel bytes (length out) | z_ok ↦ out | _ ↦ [] ]

  unfoldable pub decompress_deflate : Bytes → Bytes
  unfolding grow
  decompress_deflate bytes =
      if is_empty bytes then [] else grow 64 bytes (length bytes * 2 % 2 ^ 64)
