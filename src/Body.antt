-- ===== src/Body.antt =====
-- implementation/data_source.cpp, data_sink.cpp and their headers: the body of a request, read in
-- chunks, and the body of a response, collected and decompressed.
pub mod Chunks
pub mod Sink
mod Tests
use asio_http.Base.{
  ℕ, zero, suc, ◌+◌, ◌-◌, ◌*◌, ◌%◌, ◌^◌, Bool, true, false, not, ◌&&◌, ◌||◌, Option, none, some,
  List, [], ◌∷◌, ◌++◌, Bytes, codes, length, take, drop, ltb, leb, if◌then◌else◌, is_empty,
}
use asio_http.Headers.{HeaderList, get_header, iequals}
use asio_http.Request.{CompressionPolicy, never, when_better, always}
use asio_http.Compression.{Zlib, compress, decompress_gzip, decompress_deflate}

-- `std::istringstream` with the position of its next byte. It is good until a read ends early or a
-- seek leaves the content.
pub record StringStream : Type 0 where
  pub content : Bytes
  pub position : ℕ
  pub is_good : Bool

pub record DataSource : Type 0 where
  pub stream : StringStream
  pub size : ℕ
  pub encoding_headers : List Bytes

abbrev pub gzip_header : Bytes
gzip_header = codes "Content-Encoding: gzip"

abbrev is_never : CompressionPolicy → Bool
is_never never = true
is_never _ = false

abbrev is_always : CompressionPolicy → Bool
is_always always = true
is_always _ = false

-- The inner test of `compress_data_source`.
unfoldable pub choose : Bytes → CompressionPolicy → Bytes → Bytes × List Bytes
choose bytes policy compressed_data =
    if not (is_empty compressed_data)
      && (is_always policy || ltb (length compressed_data) (length bytes))
    then (compressed_data, gzip_header ∷ [])
    else (bytes, [])

module _ (z : Zlib) where
  unfoldable pub compress_data_source : Bytes → CompressionPolicy → Bytes × List Bytes
  unfolding choose
  compress_data_source bytes policy =
      if not (is_never policy) && not (is_empty bytes)
      then choose bytes policy (compress z bytes)
      else (bytes, [])

  unfoldable pub data_source : Bytes → CompressionPolicy → DataSource
  unfolding compress_data_source
  data_source bytes policy =
      let (content, headers) = compress_data_source bytes policy in
      record {
        stream = record { content = content; position = 0; is_good = true };
        size = length content;
        encoding_headers = headers;
      }

-- `std::istream::read` and `gcount`: a read that ends early sets eofbit and failbit, and one on a
-- stream that is not good reads nothing.
unfoldable pub read_callback : DataSource → ℕ → Bytes × DataSource
read_callback s n =
    let left = drop s.stream.position s.stream.content in
    if s.stream.is_good
    then (
      take n left,
      record s {
        stream = record (s.stream) {
          position = s.stream.position + length (take n left);
          is_good = leb n (length left);
        };
      },
    )
    else ([], s)

pub data ℤ : Type 0 where
  pos negsuc : ℕ → ℤ

infixl 6 ◌+ℤ◌
-- A position moved by an offset, unless that is before the start.
abbrev pub ◌+ℤ◌ : ℕ → ℤ → Option ℕ
n +ℤ pos k = some (n + k)
n +ℤ negsuc k = if ltb k n then some (n - suc k) else none

pub data SeekDirection : Type 0 where
  beg cur end : SeekDirection

-- `clear`, `seekg` and `good`: a seek to a place outside the content sets failbit and moves nothing.
unfoldable pub seek_callback : DataSource → ℤ → SeekDirection → Bool × DataSource
seek_callback s offset origin = elim (from s origin +ℤ offset) [
  | none ↦ failed s
  | some p ↦
      if leb p (length s.stream.content)
      then (true, record s { stream = record (s.stream) { position = p; is_good = true } })
      else failed s
]
  where
    from : DataSource → SeekDirection → ℕ
    from s beg = 0
    from s cur = s.stream.position
    from s end = length s.stream.content

    failed : DataSource → Bool × DataSource
    failed s = (false, record s { stream = record (s.stream) { is_good = false } })

pub data Compression : Type 0 where
  identity deflate gzip : Compression

pub record DataSink : Type 0 where
  pub written : Bytes
  pub compression : Compression

abbrev pub data_sink : DataSink
data_sink = record { written = []; compression = identity }

-- `data` is the memory from the pointer on. The product is one of uint32_t.
unfoldable pub write_callback : DataSink → (memory : Bytes) (size count : ℕ) → ℕ × DataSink
write_callback sink memory size count =
    let ret = size * count % 2 ^ 32 in
    (ret, record sink { written = sink.written ++ take ret memory })

abbrev pub content_encoding : Bytes
content_encoding = codes "Content-Encoding"

unfoldable pub header_callback : DataSink → HeaderList → DataSink
header_callback sink headers =
    let value = get_header headers content_encoding in
    if iequals value (codes "deflate")
    then record sink { compression = deflate }
    else if iequals value (codes "gzip")
    then record sink { compression = gzip }
    else sink

unfoldable pub get_data : Zlib → DataSink → Bytes
get_data z sink = elim sink.compression [
  | identity ↦ sink.written
  | deflate ↦ decompress_deflate z sink.written
  | gzip ↦ decompress_gzip z sink.written
]
