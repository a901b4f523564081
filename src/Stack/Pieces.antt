-- ===== src/Stack/Pieces.antt =====
-- What the callbacks for the pieces of headers leave in the buffers of a request.
use mathlib.Core.Path.{subst}
use asio_http.Base.{
  ◌≡◌, ◌∙◌, refl, ap, sym, ◌⊎◌, inl, inr, true, false, List, [], ◌∷◌, ◌++◌, Bytes, is_empty,
  if◌then◌else◌, All, map, append-nil, append_assoc,
}
use asio_http.Headers.{HeaderList}
use asio_http.Body.Chunks.{concat}
use asio_http.Stack.{RequestBuffers, ParserEvent, on_header_field, on_header_value}
use asio_http.Stack.Connection.{trim, push_current_header, header_field, header_value}

-- A header as the parser sees it: its name in pieces, and its value in pieces.
pub record Pieces : Type 0 where
  pub name : List Bytes
  pub value : List Bytes

-- The parser hands over a name in one piece or more, none of them empty, and a value in one empty
-- piece, or in one piece or more, none of them empty.
abbrev pub IsHandedOver : Pieces → Type 0
IsHandedOver p =
    (is_empty p.name ≡ false)
    × All (λ x. is_empty x ≡ false) p.name
    × ((p.value ≡ [] ∷ []) ⊎ ((is_empty p.value ≡ false) × All (λ x. is_empty x ≡ false) p.value))

-- The calls back for a list of headers.
abbrev pub field_events : List Bytes → List ParserEvent
field_events [] = []
field_events (x ∷ xs) = on_header_field x ∷ field_events xs

abbrev pub value_events : List Bytes → List ParserEvent
value_events [] = []
value_events (x ∷ xs) = on_header_value x ∷ value_events xs

abbrev pub header_events : List Pieces → List ParserEvent
header_events [] = []
header_events (p ∷ ps) = field_events p.name ++ (value_events p.value ++ header_events ps)

-- The header that the pieces make up.
abbrev pub entry : Pieces → Bytes × Bytes
entry p = (concat p.name, trim (concat p.value))

abbrev pub after : List ParserEvent → RequestBuffers → RequestBuffers
after [] b = b
after (on_header_field x ∷ es) b = after es (header_field x b)
after (on_header_value x ∷ es) b = after es (header_value x b)
after (e ∷ es) b = after es b

-- The buffers with these headers, and this name and value of the current header.
abbrev pub at : RequestBuffers → HeaderList → Bytes → Bytes → RequestBuffers
at b headers name value = record b { headers = headers; current_header = (name, value) }

-- Between two headers: the last one is already among the headers, or it is the current one.
abbrev pub Settled : RequestBuffers → HeaderList → RequestBuffers → Type 0
Settled b all s =
    (s ≡ at b all [] [])
    ⊎ ((headers : HeaderList) × (name : Bytes) × (value : Bytes) × (is_empty name ≡ false)
        × (is_empty value ≡ false)
        × (s ≡ at b headers name value)
        × (all ≡ headers ++ ((name, trim value) ∷ [])))

pub header_field-Settled :
    (b s : RequestBuffers) (all : HeaderList) (x : Bytes)
    → Settled b all s
    → header_field x s ≡ at b all x []
unfolding header_field push_current_header
header_field-Settled b s all x (inl e) = rw e refl
header_field-Settled b s all x (inr (headers, name, value, _, full, e, whole)) =
    rw (e, full, whole) refl

pub fields-at :
    (b : RequestBuffers) (all : HeaderList) (name : Bytes) (xs : List Bytes) (es : List ParserEvent)
    → after (field_events xs ++ es) (at b all name []) ≡ after es (at b all (name ++ concat xs) [])
unfolding header_field
fields-at b all name [] es = ap (λ n. after es (at b all n [])) (sym (append-nil name))
fields-at b all name (x ∷ xs) es =
    fields-at b all (name ++ x) xs es
    ∙ ap (λ n. after es (at b all n [])) (append_assoc name x (concat xs))

pub append-full : (v x : Bytes) → is_empty x ≡ false → is_empty (v ++ x) ≡ false
append-full [] x h = h
append-full (c ∷ v) x h = refl

pub values-at :
    (b : RequestBuffers) (all : HeaderList) (name value : Bytes) (xs : List Bytes)
    (es : List ParserEvent)
    → All (λ x. is_empty x ≡ false) xs
    → after (value_events xs ++ es) (at b all name value)
      ≡ after es (at b all name (value ++ concat xs))
unfolding header_value
values-at b all name value [] es full =
    ap (λ v. after es (at b all name v)) (sym (append-nil value))
values-at b all name value (x ∷ xs) es (f, full) =
    ap (after (value_events xs ++ es)) (
      ap
        (λ t.
          if t
          then push_current_header (at b all name (value ++ x))
          else at b all name (value ++ x))
        (append-full value x f))
    ∙ (values-at b all name (value ++ x) xs es full
        ∙ ap (λ v. after es (at b all name v)) (append_assoc value x (concat xs)))

pub full-append : (x v : Bytes) → is_empty x ≡ false → is_empty (x ++ v) ≡ false
full-append (c ∷ x) v h = refl
full-append [] v h = cc

-- The pieces of one header, after those before it.
pub header-Settled :
    (b s : RequestBuffers) (all : HeaderList) (name value : List Bytes)
    → Settled b all s
    → IsHandedOver (record { name = name; value = value })
    → (t : RequestBuffers) × Settled b
        (all ++ (entry (record { name = name; value = value }) ∷ []))
        t
      × ((es : List ParserEvent)
          → after (field_events name ++ (value_events value ++ es)) s ≡ after es t)
unfolding header_value push_current_header trim
header-Settled b s all [] value settled (some_name, _, _) = elim (impossible some_name) [ ]
  where
    impossible : true ≡ false → ⊥
    impossible h = cc
header-Settled b s all (x ∷ xs) value settled (_, (full, full_name), inl one_empty) = (
  at b (all ++ ((concat (x ∷ xs), []) ∷ [])) [] [],
  rw one_empty (inl refl),
  λ es. rw one_empty (
      ap (after (field_events xs ++ (on_header_value [] ∷ es)))
        (header_field-Settled b s all x settled)
      ∙ fields-at b all x xs (on_header_value [] ∷ es)),
)
header-Settled b s all (x ∷ xs) (v ∷ vs) settled (_, (full, full_name), inr (_, (w, full_value))) =
    (
      at b all (concat (x ∷ xs)) (concat (v ∷ vs)),
      inr (
        all,
        concat (x ∷ xs),
        concat (v ∷ vs),
        full-append x (concat xs) full,
        full-append v (concat vs) w,
        refl,
        refl,
      ),
      λ es.
          ap (after (field_events xs ++ (value_events (v ∷ vs) ++ es)))
            (header_field-Settled b s all x settled)
          ∙ (fields-at b all x xs (value_events (v ∷ vs) ++ es)
              ∙ values-at b all (x ++ concat xs) [] (v ∷ vs) es (w, full_value)),
    )
header-Settled b s all (x ∷ xs) [] settled (_, _, inr (some_value, _)) =
    elim (impossible some_value) [ ]
  where
    impossible : true ≡ false → ⊥
    impossible h = cc

pub headers-Settled :
    (b s : RequestBuffers) (all : HeaderList) (ps : List Pieces)
    → Settled b all s
    → All IsHandedOver ps
    → (t : RequestBuffers) × Settled b (all ++ map entry ps) t × (after (header_events ps) s ≡ t)
headers-Settled b s all [] settled handed =
    (s, subst (λ all. Settled b all s) (sym (append-nil all)) settled, refl)
headers-Settled b s all (p ∷ ps) settled (h, handed) =
    let (t, t_settled, reaches) = header-Settled b s all p.name p.value settled h in
    let (u, u_settled, ends) = headers-Settled b t (all ++ (entry p ∷ [])) ps t_settled handed in
    (
      u,
      subst (λ all. Settled b all u) (append_assoc all (entry p ∷ []) (map entry ps)) u_settled,
      reaches (header_events ps) ∙ ends,
    )
