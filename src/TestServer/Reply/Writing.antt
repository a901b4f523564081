-- ===== src/TestServer/Reply/Writing.antt =====
-- The two buffers of a `web_client` as one queue of the bytes that its socket will take.
use asio_http.Base.{
  ◌≡◌, refl, ap, sym, ◌∙◌, ◌⊎◌, inl, inr, true, false, not, ◌&&◌, if◌then◌else◌, List, [], ◌∷◌,
  ◌++◌, Bytes, is_empty, take, append-nil, append_assoc, arith, Bool-cases,
}
use asio_http.TestServer.Client.{WebClient, ask, writing, closed}
use asio_http.TestServer.Reply.{
  client_send, client_data_cleanup, start_reading, web_client_writef, write_each,
}

-- What the socket took, and after it what it is still to take.
abbrev pub queued : WebClient → Bytes
queued c = c.wire ++ (c.write_buffer ++ c.output_buffer)

-- Nothing waits without a write that is under way.
abbrev pub IsMoving : WebClient → Type 0
IsMoving c = c.write_buffer ≡ [] → c.output_buffer ≡ []

pub is_empty_nil : (xs : Bytes) → is_empty xs ≡ true → xs ≡ []
is_empty_nil [] e = refl
is_empty_nil (x ∷ xs) e = cc

nil_is_empty : (xs : Bytes) → is_empty xs ≡ false → xs ≡ [] → ⊥
nil_is_empty xs e n = cc

pub send_swaps :
    (c : WebClient)
    → (is_empty c.write_buffer && not (is_empty c.output_buffer)) ≡ true
    → client_send c
      ≡ ask writing (record c { output_buffer = c.write_buffer; write_buffer = c.output_buffer })
unfolding client_send
send_swaps c e = rw e refl

pub send_keeps :
    (c : WebClient)
    → (is_empty c.write_buffer && not (is_empty c.output_buffer)) ≡ false
    → c.can_close ≡ false
    → client_send c ≡ c
unfolding client_send
send_keeps c e k = rw (e, k) refl

pub send_ends :
    (c : WebClient)
    → (is_empty c.write_buffer && not (is_empty c.output_buffer)) ≡ false
    → c.can_close ≡ true
    → client_send c
      ≡ (if c.close_connection then ask closed c else start_reading (client_data_cleanup c))
unfolding client_send
send_ends c e k = rw (e, k) refl

both_empty :
    (w out : Bytes)
    → is_empty w ≡ true
    → (is_empty w && not (is_empty out)) ≡ false
    → (w ≡ []) × (out ≡ [])
both_empty [] [] idle e = (refl, refl)
both_empty [] (x ∷ out) idle e = cc
both_empty (x ∷ w) out idle e = cc

-- Nothing that waits without a write under way: the send begins one.
moves : (w out : Bytes) → (is_empty w && not (is_empty out)) ≡ false → w ≡ [] → out ≡ []
moves [] [] e n = refl
moves [] (x ∷ out) e n = cc
moves (x ∷ w) out e n = cc

swap_lem :
    (w out rest : Bytes)
    → (is_empty w && not (is_empty out)) ≡ true
    → (rest ++ (out ++ w) ≡ rest ++ (w ++ out)) × (out ≡ [] → w ≡ [])
swap_lem [] [] rest e = cc
swap_lem [] (x ∷ out) rest e = (ap (◌++◌ rest) (append-nil (x ∷ out)), λ n. cc)
swap_lem (x ∷ w) out rest e = cc

pub settled :
    (c : WebClient)
    → c.write_buffer ≡ []
    → c.output_buffer ≡ []
    → (is_empty c.write_buffer && not (is_empty c.output_buffer)) ≡ false
settled c w out = ground (arith, w, out)

client_send-idle :
    (c : WebClient)
    → c.can_close ≡ true
    → (c.write_buffer ≡ []) × (c.output_buffer ≡ [])
    → (queued (client_send c) ≡ queued c) × IsMoving (client_send c)
unfolding client_data_cleanup start_reading
client_send-idle c ends (w, out) = elim (Bool-cases c.close_connection) [
  | inl closes ↦ rw (send_ends c (settled c w out) ends, closes) (refl, λ n. out)
  | inr stays ↦
      rw (send_ends c (settled c w out) ends, stays)
        (ap (λ (b : Bytes × Bytes). c.wire ++ (b.0 ++ b.1)) (λ i. (sym w i, sym out i)), λ n. refl)
]

-- A send keeps the queue, if it does not clean up what is not written yet.
pub client_send-queued :
    (c : WebClient)
    → (is_empty c.write_buffer ≡ true) ⊎ (c.can_close ≡ false)
    → (queued (client_send c) ≡ queued c) × IsMoving (client_send c)
client_send-queued c h =
    elim (Bool-cases (is_empty c.write_buffer && not (is_empty c.output_buffer))) [
      | inl waiting ↦
          rw (send_swaps c waiting) (swap_lem c.write_buffer c.output_buffer c.wire waiting)
      | inr rests ↦ elim (Bool-cases c.can_close) [
        | inl ends ↦ elim h [
          | inl idle ↦
              client_send-idle c ends (both_empty c.write_buffer c.output_buffer idle rests)
          | inr goes_on ↦ cc
        ]
        | inr goes_on ↦
            rw (send_keeps c rests goes_on) (refl, moves c.write_buffer c.output_buffer rests)
      ]
    ]

-- What is printed is added to the queue, and everything else but the calls stays.
pub record Adds (text : Bytes) (c d : WebClient) : Type 0 where
  pub adds : queued d ≡ queued c ++ text
  pub moving : IsMoving d
  pub goes_on : d.can_close ≡ false
  pub closes : d.close_connection ≡ c.close_connection
  pub response : d.response_buffer ≡ c.response_buffer
  pub took : d.wire ≡ c.wire

same_fields :
    (d : WebClient)
    → d.can_close ≡ false
    → ((client_send d).can_close ≡ false)
      × ((client_send d).close_connection ≡ d.close_connection)
      × ((client_send d).response_buffer ≡ d.response_buffer)
      × ((client_send d).wire ≡ d.wire)
same_fields d going =
    elim (Bool-cases (is_empty d.write_buffer && not (is_empty d.output_buffer))) [
      | inl waiting ↦ rw (send_swaps d waiting) (going, refl, refl, refl)
      | inr rests ↦ rw (send_keeps d rests going) (going, refl, refl, refl)
    ]

append_thrice : (a b c d : Bytes) → a ++ (b ++ (c ++ d)) ≡ (a ++ (b ++ c)) ++ d
append_thrice a b c d = simp append_assoc refl

pub client_send-Adds :
    (c : WebClient) (text : Bytes)
    → c.can_close ≡ false
    → Adds text c (client_send (record c { output_buffer = c.output_buffer ++ text }))
client_send-Adds c text going =
    let d = record c { output_buffer = c.output_buffer ++ text } in
    let (kept, moving) = client_send-queued d (inr going) in
    let (goes_on, closes, response, took) = same_fields d going in
    record {
      adds = kept ∙ append_thrice c.wire c.write_buffer c.output_buffer text;
      moving = moving;
      goes_on = goes_on;
      closes = closes;
      response = response;
      took = took;
    }

-- What `vsnprintf` lets through of each text.
abbrev pub printed : List Bytes → Bytes
printed [] = []
printed (text ∷ texts) = take 1023 text ++ printed texts

pub write_each-Adds :
    (texts : List Bytes) (c : WebClient)
    → c.can_close ≡ false
    → IsMoving c
    → Adds (printed texts) c (write_each texts c)
unfolding write_each web_client_writef
write_each-Adds [] c going moving = record {
  adds = sym (append-nil (queued c));
  moving = moving;
  goes_on = going;
  closes = refl;
  response = refl;
  took = refl;
}
write_each-Adds (text ∷ texts) c going moving =
    let first = client_send-Adds c (take 1023 text) going in
    let others = write_each-Adds texts (web_client_writef text c) first.goes_on first.moving in
    record {
      adds =
          others.adds
          ∙ (ap (λ t. t ++ printed texts) first.adds
              ∙ append_assoc (queued c) (take 1023 text) (printed texts));
      moving = others.moving;
      goes_on = others.goes_on;
      closes = others.closes ∙ first.closes;
      response = others.response ∙ first.response;
      took = others.took ∙ first.took;
    }
