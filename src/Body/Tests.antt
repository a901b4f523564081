-- ===== src/Body/Tests.antt =====
-- Bodies of a few bytes, read and compressed.
use asio_http.Base.{◌<◌, [], ◌∷◌, ◌≡◌, codes, length, true, arith}
use asio_http.Request.{never, when_better}
use asio_http.Headers.{HeaderList, get_header}
use asio_http.Compression.{compress}
use asio_http.Body.Sink.{write_pieces, decode, get_data-decode}
use asio_http.Compression.Samples.{copying}
use asio_http.Body.{
  DataSource, data_source, compress_data_source, seek_callback, pos, beg, get_data, header_callback,
  data_sink, content_encoding,
}
use asio_http.Body.Chunks.{
  read_chunks, concat, Chosen, data_source-chunks, seek_callback-chunks,
  compress_data_source-Chosen,
}

abbrev read_to_the_end : DataSource
read_to_the_end = record {
  stream = record { content = codes "abc"; position = 3; is_good = true };
  size = 3;
  encoding_headers = [];
}

abbrev source : DataSource
source = data_source copying (codes "abcde") never

short : source.size < 6
unfolding data_source compress_data_source
short = omega arith

data_source-chunks_example :
    (concat (read_chunks 6 source 2) ≡ (compress_data_source copying (codes "abcde") never).0)
    × (source.size ≡ length (compress_data_source copying (codes "abcde") never).0)
data_source-chunks_example =
    data_source-chunks copying (codes "abcde") never 2 6 short (omega arith)

seek_callback-chunks_example :
    ((seek_callback read_to_the_end (pos 0) beg).0 ≡ true)
    × (concat (read_chunks 4 (seek_callback read_to_the_end (pos 0) beg).1 2) ≡ codes "abc")
seek_callback-chunks_example = seek_callback-chunks read_to_the_end 2 4 (omega arith) (omega arith)

compress_data_source-Chosen_example :
    Chosen
      (codes "abc")
      when_better
      (compress copying (codes "abc"))
      (compress_data_source copying (codes "abc") when_better)
compress_data_source-Chosen_example = compress_data_source-Chosen copying (codes "abc") when_better

abbrev encoded : HeaderList
encoded = (codes "content-encoding", codes "GZIP") ∷ []

get_data-decode_example :
    get_data copying
      (write_pieces (header_callback data_sink encoded) (codes "ab" ∷ (codes "c" ∷ [])))
    ≡ decode copying (get_header encoded content_encoding) (codes "abc")
get_data-decode_example =
    get_data-decode copying encoded (codes "ab" ∷ (codes "c" ∷ [])) (omega arith, (omega arith, tt))
