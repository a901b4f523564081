-- ===== src/Body/Sink.antt =====
-- What the body of a response amounts to, with data_sink.cpp.
use asio_http.Base.{
  ℕ, zero, suc, ◌*◌, ◌%◌, ◌^◌, ◌<◌, ◌≡◌, ◌∙◌, refl, ap, sym, inl, inr, List, [], ◌∷◌, ◌++◌, Bytes,
  codes, length, take, if◌then◌else◌, All, append-nil, append_assoc, arith, Bool-cases,
}
use asio_http.Headers.{HeaderList, get_header, iequals}
use asio_http.Compression.{Zlib, decompress_gzip, decompress_deflate}
use asio_http.Body.{
  DataSink, data_sink, write_callback, header_callback, get_data, content_encoding,
}
use asio_http.Body.Chunks.{concat}

-- The pieces of a body, written one after another, each with its length as the parser gives it.
abbrev pub write_pieces : DataSink → List Bytes → DataSink
write_pieces sink [] = sink
write_pieces sink (x ∷ xs) = write_pieces (write_callback sink x (length x % 2 ^ 32) 1).1 xs

take_all : (xs : Bytes) (n : ℕ) → n ≡ length xs → take n xs ≡ xs
take_all [] zero h = refl
take_all [] (suc n) h = refl
take_all (x ∷ xs) (suc n) h = ap (◌∷◌ x) (take_all xs n (omega (arith, h)))
take_all (x ∷ xs) zero h = elim (impossible h) [ ]
  where
    impossible : {n : ℕ} → 0 ≡ suc n → ⊥
    impossible h = omega arith

write_pieces-written :
    (sink : DataSink) (xs : List Bytes)
    → All (λ x. length x < 2 ^ 32) xs
    → write_pieces sink xs ≡ record sink { written = sink.written ++ concat xs }
unfolding write_callback
write_pieces-written sink [] h =
    ap (λ w. record sink { written = w }) (sym (append-nil sink.written))
write_pieces-written sink (x ∷ xs) (h, hs) =
    ap (λ w. write_pieces (record sink { written = sink.written ++ w }) xs)
      (take_all x (length x % 2 ^ 32 * 1 % 2 ^ 32) (omega (arith, h)))
    ∙ (write_pieces-written (record sink { written = sink.written ++ x }) xs hs
        ∙ ap (λ w. record sink { written = w }) (append_assoc sink.written x (concat xs)))

-- The decoding that the response's Content-Encoding asks for.
abbrev pub decode : Zlib → Bytes → Bytes → Bytes
decode z encoding bytes =
    if iequals encoding (codes "deflate")
    then decompress_deflate z bytes
    else if iequals encoding (codes "gzip")
    then decompress_gzip z bytes
    else bytes

-- When the headers of a response are shown to a new sink, and then the pieces of its body, each
-- shorter than 2^32 bytes, are written to it, its data is the whole body, decoded as Content-Encoding says:
-- for `deflate` and `gzip` in any case by the decompression of that name, and as it is for anything
-- else.
pub get_data-decode :
    (z : Zlib) (headers : HeaderList) (xs : List Bytes)
    → All (λ x. length x < 2 ^ 32) xs
    → get_data z (write_pieces (header_callback data_sink headers) xs)
      ≡ decode z (get_header headers content_encoding) (concat xs)
unfolding get_data header_callback
get_data-decode z headers xs h =
    elim (Bool-cases (iequals (get_header headers content_encoding) (codes "deflate"))) [
      | inl e ↦ rw (write_pieces-written _ xs h, e) refl
      | inr e ↦ elim (Bool-cases (iequals (get_header headers content_encoding) (codes "gzip"))) [
        | inl g ↦ rw (write_pieces-written _ xs h, e, g) refl
        | inr g ↦ rw (write_pieces-written _ xs h, e, g) refl
      ]
    ]
