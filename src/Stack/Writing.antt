-- ===== src/Stack/Writing.antt =====
-- What goes out on a connection, with on_connected and on_write of http_client_connection.h: the headers,
-- then the body in chunks, then a read.
use asio_http.Base.{
  ℕ, zero, suc, ◌<◌, ◌≡◌, ◌∙◌, refl, ap, inl, inr, true, false, some, List, [], ◌∷◌, ◌++◌, Bytes,
  is_empty, Bool-cases, Outcome, returned, ◌>>=◌, length, arith, map, append_assoc,
}
use asio_http.Errors.{success, is_error}
use asio_http.Compression.{Zlib}
use asio_http.Body.{DataSource, read_callback}
use asio_http.Body.Chunks.{read_chunks, concat, left, read_chunks-left, read_callback-shorter}
use asio_http.Stack.{Stack, Call, write, read, post_call}
use asio_http.Stack.Content
use asio_http.Stack.Encoding
use asio_http.Stack.Connection.{on_write, write_size}

-- The chunks of a source.
abbrev pub chunks : DataSource → List Bytes
chunks source = read_chunks (suc (length (left source))) source write_size

module _ {P : Type 0} (z : Zlib) where
  -- Writes that end without an error, one after another.
  abbrev pub write_all : ℕ → Stack P → Outcome (Stack P)
  write_all zero s = returned s
  write_all (suc n) s = on_write z success s >>= write_all n

  -- The stack once the source has been read.
  abbrev with_source : DataSource → Stack P → Stack P
  with_source source s = record s { content = record (s.content) { body_source = some source } }

  on_write-empty :
      (s : Stack P) (source : DataSource)
      → s.content.body_source ≡ some source
      → is_empty (read_callback source write_size).0 ≡ true
      → on_write z success s
        ≡ returned (post_call read (with_source (read_callback source write_size).1 s))
  unfolding on_write Encoding.get_body_data Content.get_body_data is_error
  on_write-empty s source e h = rw (e, h) refl

  on_write-chunk :
      (s : Stack P) (source : DataSource)
      → s.content.body_source ≡ some source
      → is_empty (read_callback source write_size).0 ≡ false
      → on_write z success s
        ≡ returned (
            post_call
              (write (read_callback source write_size).0)
              (with_source (read_callback source write_size).1 s))
  unfolding on_write Encoding.get_body_data Content.get_body_data is_error
  on_write-chunk s source e h = rw (e, h) refl

  -- The writes of chunks, and the read that follows, after what is in the log.
  Sent : List Call → List Bytes → Stack P → Type 0
  Sent log cs s =
      (t : Stack P) × (write_all (suc (length cs)) s ≡ returned t)
      × (t.log ≡ log ++ (map write cs ++ (read ∷ [])))

  write_all-Sent :
      (fuel : ℕ) (s : Stack P) (source : DataSource)
      → s.content.body_source ≡ some source
      → length (left source) < fuel
      → Sent s.log (read_chunks fuel source write_size) s
  unfolding Sent
  write_all-Sent zero s source e h = elim (impossible h) [ ]
    where
      impossible : {n : ℕ} → n < 0 → ⊥
      impossible h = omega arith
  write_all-Sent (suc fuel) s source e h =
      elim (Bool-cases (is_empty (read_callback source write_size).0)) [
        | inl c ↦ rw c (_, ap (λ m. m >>= write_all 0) (on_write-empty s source e c), refl)
        | inr c ↦
            let u =
              post_call (write (read_callback source write_size).0)
                (with_source (read_callback source write_size).1 s) in
            let (t, returns, logged) =
              write_all-Sent fuel u (read_callback source write_size).1 refl
                (read_callback-shorter source write_size fuel h c) in
            rw c (
              t,
              ap
                    (λ m.
                      m
                      >>= write_all (
                          suc (
                            length
                              (read_chunks fuel (read_callback source write_size).1 write_size))))
                    (on_write-chunk s source e c)
                  ∙ returns,
              logged ∙ append_assoc s.log _ _,
            )
      ]

  -- With a body source, as many writes that end without an error as there are chunks, and one more,
  -- return, and put on the connection every chunk of the rest of the body, in order, and then a read;
  -- the chunks together are that rest.
  pub write_all-body :
      (s : Stack P) (source : DataSource)
      → s.content.body_source ≡ some source
      → ((t : Stack P) × (write_all (suc (length (chunks source))) s ≡ returned t)
          × (t.log ≡ s.log ++ (map write (chunks source) ++ (read ∷ []))))
        × (concat (chunks source) ≡ left source)
  unfolding Sent
  write_all-body s source e = (
    write_all-Sent (suc (length (left source))) s source e (omega arith),
    read_chunks-left (suc (length (left source))) source write_size (omega arith) (omega arith),
  )
