-- ===== src/Compression/Blocks.antt =====
-- The loop of compression.cpp ends, and its result is what zlib wrote, block after block.
use asio_http.Compression.{
  given_in, ZResult, z_ok, z_stream_end, z_buf_error, z_error, append_block, after_call, while_ok,
  blocks, ended, zeros, block_size, Zlib, z_best_compression, compress, compress_level,
  decompress_gzip,
}
use mathlib.Core.Path.{subst}
use asio_http.Base.{
  take-append, ℕ, zero, suc, ◌+◌, ◌≤◌, ◌<◌, ◌≡◌, ◌≢◌, some, ◌∙◌, refl, ap, [], ◌∷◌, ◌++◌, Bytes,
  length, take, drop, ltb, arith, append-nil, append_assoc, length-append, length-drop, true, false,
}

-- The calls of zlib, one after another on buffers of `n` bytes, up to the first that does not return
-- Z_OK: what they wrote together, and what the last one returned.
pub data Emits {S : Type 0} (step : S → ℕ → ZResult × (Bytes × S)) (n : ℕ)
    : S → ZResult → Bytes → Type 0 where
  more :
      {s t : S} {r : ZResult} {written rest : Bytes}
      → step s n ≡ (z_ok, (written, t))
      → Emits step n t r rest
      → Emits step n s r (written ++ rest)
  last :
      {s t : S} {r : ZResult} {written : Bytes}
      → step s n ≡ (r, (written, t))
      → r ≢ z_ok
      → Emits step n s r written

eq_true : {a b : ℕ} → a < b → ltb a b ≡ true
eq_true h = ground arith

eq_false : {a b : ℕ} → b ≤ a → ltb a b ≡ false
eq_false h = ground arith

-- `deflate` with Z_FINISH and `inflate` write at most the space they are given, and return Z_OK only
-- if they made progress.
pub record IsProgressing {S : Type 0} (step : S → ℕ → ZResult × (Bytes × S)) (pending : S → ℕ)
    : Type 0 where
  pub fits : (s : S) (n : ℕ) → length (step s n).1.0 ≤ n
  pub progress : (s : S) (n : ℕ) → (step s n).0 ≡ z_ok → pending (step s n).1.1 < pending s

cut_written :
    (written outbuffer : Bytes) (w : ℕ) {k : ℕ}
    → k ≡ suc (length written)
    → take k (w ∷ (written ++ drop (suc (length written)) outbuffer)) ≡ w ∷ written
cut_written written outbuffer w h =
    rw h (take-append (w ∷ written) (drop (suc (length written)) outbuffer))

below_zero : {n : ℕ} → n < 0 → ⊥
below_zero h = omega arith

-- The part of the buffer that is appended is what the call wrote.
append_block-written :
    (total : ℕ) (written outbuffer result : Bytes)
    → total ≡ length result
    → append_block (total + length written) (written ++ drop (length written) outbuffer) result
      ≡ result ++ written
unfolding append_block
append_block-written total [] outbuffer result h =
    rw (eq_false {a = length result} {b = total + 0} (omega arith), append-nil result)
append_block-written total (w ∷ written) outbuffer result h =
    rw (eq_true {a = length result} {b = total + suc (length written)} (omega arith))
      (ap (result ++◌) (cut_written written outbuffer w (omega arith)))

length-written :
    (written outbuffer : Bytes)
    → length written ≤ length outbuffer
    → length (written ++ drop (length written) outbuffer) ≡ length outbuffer
length-written written outbuffer h = omega (
  arith,
  length-append written (drop (length written) outbuffer),
  length-drop (length written) outbuffer,
)

module _ {S : Type 0} (step : S → ℕ → ZResult × (Bytes × S)) where
  -- The loop returns what the calls emit, after the result so far.
  abbrev pub Runs : ℕ → S → ℕ → Bytes → Bytes → Type 0
  Runs fuel s total outbuffer result =
      (r : ZResult) × (bytes : Bytes) × Emits step (length outbuffer) s r bytes
      × (blocks step fuel s total outbuffer result ≡ (r, result ++ bytes))

  after_call-eq :
      {s t : S} {r : ZResult} {written : Bytes} (total : ℕ) (outbuffer result : Bytes)
      → step s (length outbuffer) ≡ (r, (written, t))
      → total ≡ length result
      → after_call total outbuffer result (step s (length outbuffer)) ≡ (
        r,
        (
          t,
          (total + length written, (written ++ drop (length written) outbuffer, result ++ written)),
        ),
      )
  unfolding after_call
  after_call-eq {t = t} {r = r} {written = written} total buffer result eq e =
      ap (after_call total buffer result) eq
      ∙ ap (λ x. (r, (t, (total + length written, (written ++ drop (length written) buffer, x)))))
          (append_block-written total written buffer result e)

  Runs-more :
      (fuel : ℕ) (s t : S) (total : ℕ) (written outbuffer result : Bytes)
      → step s (length outbuffer) ≡ (z_ok, (written, t))
      → length written ≤ length outbuffer
      → total ≡ length result
      → Runs fuel t
          (total + length written)
          (written ++ drop (length written) outbuffer)
          (result ++ written)
      → Runs (suc fuel) s total outbuffer result
  unfolding blocks after_call
  Runs-more fuel s t total written outbuffer result eq fits e (r, bytes, rest, equal) = (
    r,
    written ++ bytes,
    (more eq (subst (λ n. Emits step n t r bytes) (length-written written outbuffer fits) rest)),
    ap (while_ok (blocks step fuel)) (after_call-eq total outbuffer result eq e)
        ∙ (equal ∙ ap (λ x. (r, x)) (append_assoc result written bytes)),
  )

  Runs-last :
      (fuel : ℕ) (s t : S) (total : ℕ) (r : ZResult) (written outbuffer result : Bytes)
      → step s (length outbuffer) ≡ (r, (written, t))
      → r ≢ z_ok
      → total ≡ length result
      → Runs (suc fuel) s total outbuffer result
  unfolding blocks after_call
  Runs-last fuel s t total z_ok written outbuffer result eq ne e = elim (ne refl) [ ]
  Runs-last fuel s t total r written outbuffer result eq ne e = (
    r,
    written,
    last eq ne,
    ap (while_ok (blocks step fuel)) (after_call-eq total outbuffer result eq e),
  )

  module _ (pending : S → ℕ) (lawful : IsProgressing step pending) where
    blocks-Runs_from :
        (fuel : ℕ) (s : S) (total : ℕ) (outbuffer result : Bytes)
        → pending s < fuel
        → total ≡ length result
        → Runs fuel s total outbuffer result
    blocks-Runs_from zero s total outbuffer result h e = elim (below_zero h) [ ]
    blocks-Runs_from (suc fuel) s total outbuffer result h e =
        ended (λ t total outbuffer result. blocks-Runs_from fuel t total outbuffer result)
          (step s (length outbuffer)) refl
      where
        ended :
            ((t : S) (total : ℕ) (outbuffer result : Bytes)
              → pending t < fuel
              → total ≡ length result
              → Runs fuel t total outbuffer result)
            → (c : ZResult × (Bytes × S)) → step s (length outbuffer) ≡ c
            → Runs (suc fuel) s total outbuffer result
        ended again (z_ok, (written, t)) eq =
            Runs-more fuel s t total written outbuffer result eq
              (subst (λ c. length c.1.0 ≤ length outbuffer) eq (lawful.fits s (length outbuffer))) e
              (again t (total + length written) (written ++ drop (length written) outbuffer)
                (result ++ written)
                (omega (
                  arith,
                  h,
                  subst (λ c. c.0 ≡ z_ok → pending c.1.1 < pending s) eq
                      (lawful.progress s (length outbuffer)) refl,
                ))
                (omega (arith, e, length-append result written)))
        ended again (z_stream_end, (written, t)) eq =
            Runs-last fuel s t total z_stream_end written outbuffer result eq (cc) e
        ended again (z_buf_error, (written, t)) eq =
            Runs-last fuel s t total z_buf_error written outbuffer result eq (cc) e
        ended again (z_error n, (written, t)) eq =
            Runs-last fuel s t total (z_error n) written outbuffer result eq (cc) e

length-zeros : (n : ℕ) → length (zeros n) ≡ n
unfolding zeros
length-zeros zero = refl
length-zeros (suc n) = ap suc (length-zeros n)

module _ {S : Type 0} (step : S → ℕ → ZResult × (Bytes × S)) (pending : S → ℕ)
    (lawful : IsProgressing step pending) where
  -- From a fresh buffer, with fuel for the calls that may return Z_OK.
  blocks-Runs :
      (s : S)
      → (r : ZResult) × (bytes : Bytes) × Emits step block_size s r bytes
        × (blocks step (suc (pending s)) s 0 (zeros block_size) [] ≡ (r, bytes))
  blocks-Runs s =
      let (r, bytes, emits, equal) =
        blocks-Runs_from step pending lawful (suc (pending s)) s 0 (zeros block_size) []
          (omega arith) refl in
      (r, bytes, subst (λ n. Emits step n s r bytes) (length-zeros block_size) emits, equal)

module _ (z : Zlib) (bytes : Bytes) (s : z.Stream) where
  -- When zlib writes no more than its buffer and ends, and deflateInit2 succeeded, `compress` gives all
  -- that the calls of `deflate` wrote, in order, if the last returned Z_STREAM_END, and nothing if not.
  pub compress-Emits :
      IsProgressing z.deflate z.pending
      → z.deflate_init z_best_compression (given_in bytes) ≡ some s
      → (r : ZResult) × (out : Bytes) × Emits z.deflate block_size s r out
        × (compress z bytes ≡ ended (r, out))
  unfolding compress compress_level
  compress-Emits lawful h =
      let (r, out, emits, equal) = blocks-Runs z.deflate z.pending lawful s in
      (r, out, emits, rw (compress, compress_level, h, equal) refl)

  -- When zlib writes no more than its buffer and ends, and inflateInit2 succeeded, `decompress_gzip`
  -- gives all that the calls of `inflate` wrote, in order, whatever the last one returned.
  pub decompress_gzip-Emits :
      IsProgressing z.inflate z.pending
      → z.inflate_init (given_in bytes) ≡ some s
      → (r : ZResult) × (out : Bytes) × Emits z.inflate block_size s r out
        × (decompress_gzip z bytes ≡ out)
  unfolding decompress_gzip
  decompress_gzip-Emits lawful h =
      let (r, out, emits, equal) = blocks-Runs z.inflate z.pending lawful s in
      (r, out, emits, rw (decompress_gzip, h, equal) refl)
