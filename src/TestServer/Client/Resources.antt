-- ===== src/TestServer/Client/Resources.antt =====
-- Which text `get_request_resource` decodes.
use asio_http.Base.{
  ◌>>=◌, Bool, false, not, ◌&&◌, ltb, is_empty, if◌then◌else◌, Bool-cases, thrown, out_of_bounds, ℕ,
  ◌+◌, ◌-◌, ◌≤◌, ◌<◌, ◌%◌, ◌^◌, ◌≡◌, refl, ap, sym, ◌∙◌, inl, inr, true, Option, none, some, [],
  ◌∷◌, ◌++◌, Bytes, length, take, take-append, append_assoc, length-append, arith, returned, codes,
}
use asio_http.TestServer.Resource.{decode}
use asio_http.TestServer.Search.{mystrnstr, starts_with}
use asio_http.TestServer.Search.First.{begins}
use asio_http.TestServer.Client.{
  WebClient, get_request_resource, decode_or_empty, resource_text, between, offset,
}
use asio_http.TestServer.Search.Places.{
  Lacks, has, has-Lacks, mystrnstr_behind, mystrnstr_lacking, mystrnstr_past, mystrnstr_present,
}

cut_lem : (text tail : Bytes) → take (length (text ++ tail) - length tail) (text ++ tail) ≡ text
cut_lem text tail =
    ap (λ n. take n (text ++ tail)) (omega (arith, length-append text tail)) ∙ take-append text tail

abbrev http : Bytes
http = codes " HTTP"

-- A path is followed by nothing or by a question mark and a query.
abbrev IsQuery : Bytes → Type 0
IsQuery [] = Unit
IsQuery (c ∷ q) = c ≡ b'?'

-- Behind the blank nothing ends the path.
ends_at_blank :
    (tmp1 tmp2 tmp3 : Bytes)
    → length tmp2 < length tmp3
    → between tmp1 (some tmp2) (some tmp3) ≡ some (take (length tmp1 - length tmp3) tmp1)
ends_at_blank tmp1 tmp2 tmp3 less = ground (arith, less)

ends_at_mark :
    (tmp1 tmp2 tmp3 : Bytes)
    → length tmp3 ≤ length tmp2
    → between tmp1 (some tmp2) (some tmp3) ≡ some (take (length tmp1 - length tmp2) tmp1)
ends_at_mark tmp1 tmp2 tmp3 less = ground (arith, less)

marked : (c : ℕ) (text : Bytes) → c ≡ b'?' → begins (b'?' ∷ []) (c ∷ text) ≡ true
unfolding starts_with
marked c text e = ground (arith, e)

versioned : (rest : Bytes) → begins http (http ++ rest) ≡ true
unfolding starts_with
versioned rest = refl

-- The blank before the version is the first.
mystrnstr-http :
    (target query rest : Bytes) (len : ℕ)
    → Lacks 32 (target ++ query)
    → length target + (length query + 5) ≤ len
    → len < 2 ^ 31
    → mystrnstr (target ++ (query ++ (http ++ rest))) http len ≡ returned (some (http ++ rest))
mystrnstr-http target query rest len no_blank inside small =
    ap (λ t. mystrnstr t http len) (sym (append_assoc target query (http ++ rest)))
    ∙ mystrnstr_behind 32 (codes "HTTP") (target ++ query) (http ++ rest) len no_blank
        (omega (arith, length-append target query, inside)) small (versioned rest)

-- The search for the question mark of a request without one goes on behind the request, and reads beyond
-- what can be read if there is none and the length is too large.
abbrev reads_past : (query rest : Bytes) → (readable len : ℕ) → Bool
reads_past query rest readable len = is_empty query && (not (has b'?' rest) && ltb readable len)

Lacks-append : (c : ℕ) (a b : Bytes) → Lacks c a → Lacks c b → Lacks c (a ++ b)
Lacks-append c [] b h k = k
Lacks-append c (x ∷ a) b (h, others) k = (h, Lacks-append c a b others k)

-- A question mark behind the version is found behind it, or not at all.
mark_behind :
    (target rest : Bytes) (len : ℕ)
    → Lacks b'?' target
    → 0 < len
    → len < 2 ^ 31
    → has b'?' rest ≡ true
    → (tmp2 : Option Bytes) × (mystrnstr (target ++ (http ++ rest)) (codes "?") len ≡ returned tmp2)
      × (between (target ++ (http ++ rest)) tmp2 (some (http ++ rest)) ≡ some target)
mark_behind target rest len lacks some_byte small there =
    let same = ap (λ t. mystrnstr t (codes "?") len) (sym (append_assoc target http rest)) in
    elim (mystrnstr_present b'?' (target ++ http) rest len some_byte small
      (Lacks-append b'?' target http lacks (ground arith)) there) [
        | inl nothing ↦ (none, same ∙ nothing, ap some (cut_lem target (http ++ rest)))
        | inr (p, found, behind) ↦ (
          some p,
          same ∙ found,
          ends_at_blank (target ++ (http ++ rest)) p (http ++ rest)
                (omega (arith, behind, length-append http rest))
              ∙ ap some (cut_lem target (http ++ rest)),
        )
      ]

-- What is decoded, from the pointer to the path on.
resource_text_lem :
    (size : ℕ) (memory target query rest : Bytes) (len : ℕ)
    → (size + offset memory (target ++ (query ++ (http ++ rest)))) % 2 ^ 64 ≡ len
    → IsQuery query
    → Lacks b'?' target
    → Lacks 32 (target ++ query)
    → length target + (length query + 5) ≤ len
    → len < 2 ^ 31
    → resource_text size memory (some (target ++ (query ++ (http ++ rest)))) ≡ (
        if reads_past query rest (length (target ++ (query ++ (http ++ rest)))) len
        then thrown out_of_bounds
        else returned (some target))
unfolding resource_text
resource_text_lem size memory target (c ∷ q) rest len len_lem is_query no_mark no_blank inside
      small =
    let tail = (c ∷ q) ++ (http ++ rest) in
    rw
      (
        len_lem,
        mystrnstr_behind b'?' [] target tail len no_mark (omega (arith, inside)) small
            (marked c (q ++ (http ++ rest)) is_query),
        mystrnstr-http target (c ∷ q) rest len no_blank inside small,
      )
      (ap returned (
        ends_at_mark (target ++ tail) tail (http ++ rest)
          (omega (arith, length-append (c ∷ q) (http ++ rest)))
        ∙ ap some (cut_lem target tail)))
resource_text_lem size memory target [] rest len len_lem is_query no_mark no_blank inside small =
    let tmp1 = target ++ (http ++ rest) in
    let version = mystrnstr-http target [] rest len no_blank inside small in
    elim (Bool-cases (has b'?' rest)) [
      | inl there ↦
          let (tmp2, found, cut) =
            mark_behind target rest len no_mark (omega (arith, inside)) small there in
          rw (len_lem, found, version, there) (ap returned cut)
      | inr away ↦
          let lacks : Lacks b'?' tmp1 =
            Lacks-append b'?' target (http ++ rest) no_mark
              (Lacks-append b'?' http rest (ground arith) (has-Lacks b'?' rest away)) in
          elim (Bool-cases (ltb (length tmp1) len)) [
            | inl past ↦
                rw
                  (
                    len_lem,
                    mystrnstr_past b'?' tmp1 len small lacks (ground (arith, past)),
                    away,
                    past,
                  )
                  refl
            | inr inside_text ↦
                rw
                  (
                    len_lem,
                    mystrnstr_lacking b'?' tmp1 len (omega (arith, inside)) small lacks
                        (ground (arith, inside_text)),
                    version,
                    away,
                    inside_text,
                  )
                  (ap (λ t. returned (some t)) (cut_lem target (http ++ rest)))
          ]
    ]

flatten :
    (a b c d e f : Bytes) → (a ++ (b ++ (c ++ (d ++ e)))) ++ f ≡ a ++ (b ++ (c ++ (d ++ (e ++ f))))
flatten a b c d e f = simp append_assoc refl

length-parts :
    (a b c d e : Bytes)
    → length (a ++ (b ++ (c ++ (d ++ e))))
      ≡ length a + (length b + (length c + (length d + length e)))
length-parts a b c d e = simp length-append refl

slashed : (text : Bytes) → begins (b'/' ∷ []) (b'/' ∷ text) ≡ true
unfolding starts_with
slashed text = refl

-- Two comparisons of sizes that differ by a common part.
same_order : (a b c d n : ℕ) → a ≡ n + c → b ≡ n + d → ltb a b ≡ ltb c d
same_order a b c d n h k = ground (arith, h, k)

-- Decides whether the search for the question mark reads beyond the memory.
decoded_if :
    (b : Bool) (ii : ℕ) (text : Bytes)
    → ((if b then thrown out_of_bounds else returned (some text)) >>= λ src.
        returned (decode_or_empty ii src))
      ≡ (if b then thrown out_of_bounds else returned (decode 0 ii text))
decoded_if true ii text = refl
decoded_if false ii text = refl

pub get_request_resource-path :
    (c : WebClient) (front path query rest beyond : Bytes) (ii : ℕ)
    → c.request_buffer ≡ front ++ ((b'/' ∷ path) ++ (query ++ (http ++ rest)))
    → Lacks b'/' front
    → Lacks b'?' path
    → IsQuery query
    → Lacks 32 (path ++ query)
    → length c.request_buffer + length front < 2 ^ 31
    → get_request_resource beyond ii c ≡ (
        if is_empty query
          && (not (has b'?' (rest ++ beyond)) && ltb (length beyond) (length front + length front))
        then thrown out_of_bounds
        else returned (decode 0 ii (b'/' ∷ path)))
unfolding get_request_resource
get_request_resource-path c front path query rest beyond ii buffer no_slash no_mark is_query
      no_blank small =
    let target : Bytes = b'/' ∷ path in
    let tmp1 : Bytes = target ++ (query ++ (http ++ (rest ++ beyond))) in
    let size = length c.request_buffer in
    let memory = ap (λ b. b ++ beyond) buffer ∙ flatten front target query http rest beyond in
    let sizes = length-parts front target query http rest in
    let tmp1_size = length-parts [] target query http (rest ++ beyond) in
    let slash =
      ap (λ m. mystrnstr m (codes "/") size) memory
      ∙ mystrnstr_behind b'/' [] front tmp1 size no_slash (omega (arith, ap length buffer, sizes))
          (omega (arith, small)) (slashed (path ++ (query ++ (http ++ (rest ++ beyond))))) in
    let text =
      resource_text_lem size (c.request_buffer ++ beyond) target query (rest ++ beyond)
        (size + length front) (omega (arith, ap length memory, length-append front tmp1, small))
        is_query (refl, no_mark) (refl, no_blank) (omega (arith, ap length buffer, sizes)) small in
    let order =
      same_order (length tmp1) (size + length front) (length beyond) (length front + length front)
        (length target + (length query + (length http + length rest)))
        (omega (arith, tmp1_size, length-append rest beyond))
        (omega (arith, ap length buffer, sizes)) in
    rw (slash, text, order) (decoded_if _ ii target)
