-- ===== src/Compression/Samples.antt =====
-- A zlib that keeps the bytes as they are, for the tests of the modules that use it.
use asio_http.Base.{
  ℕ, zero, suc, ◌≤◌, ◌<◌, ◌≡◌, true, false, some, [], Bytes, length, take, drop, leb, if◌then◌else◌,
  arith, length-take, length-drop, Bool-cases, inl, inr,
}
use asio_http.Compression.{Zlib, ZResult, z_ok, z_stream_end, z_buf_error}
use asio_http.Compression.Blocks.{IsProgressing}

abbrev pub copy : Bytes → ℕ → ZResult × (Bytes × Bytes)
copy s zero = (z_buf_error, ([], s))
copy s (suc n) =
    if leb (length s) (suc n)
    then (z_stream_end, (s, []))
    else (z_ok, (take (suc n) s, drop (suc n) s))

abbrev pub copying : Zlib
copying = record {
  Stream = Bytes;
  deflate_init = λ level bytes. some bytes;
  deflate = copy;
  inflate_init = λ bytes. some bytes;
  inflate = copy;
  pending = λ s. length s;
  uncompress =
      λ bytes n. if leb (length bytes) n then (z_ok, bytes) else (z_buf_error, take n bytes);
}

copy_fits : (s : Bytes) (n : ℕ) → length (copy s n).1.0 ≤ n
copy_fits s zero = omega arith
copy_fits s (suc n) = elim (Bool-cases (leb (length s) (suc n))) [
  | inl e ↦ rw e (below e)
  | inr e ↦ rw e (omega (arith, length-take (suc n) s))
]
  where
    below : leb (length s) (suc n) ≡ true → length s ≤ suc n
    below e = ground arith

copy_progress : (s : Bytes) (n : ℕ) → (copy s n).0 ≡ z_ok → length (copy s n).1.1 < length s
copy_progress s zero = λ h. elim (not_ok h) [ ]
  where
    not_ok : z_buf_error ≡ z_ok → ⊥
    not_ok h = cc
copy_progress s (suc n) = elim (Bool-cases (leb (length s) (suc n))) [
  | inl e ↦ rw e (λ h. elim (not_ok h) [ ])
  | inr e ↦ rw e (λ h. omega (arith, length-drop (suc n) s, above e))
]
  where
    not_ok : z_stream_end ≡ z_ok → ⊥
    not_ok h = cc

    above : leb (length s) (suc n) ≡ false → suc n < length s
    above e = ground arith

pub copy-IsProgressing : IsProgressing copy (λ s. length s)
copy-IsProgressing = record { fits = copy_fits; progress = copy_progress }
