-- ===== src/Pool/Layers/Chain.antt =====
-- That the layers of a new stack are a chain.
use asio_http.Base.{
  ℕ, zero, suc, ◌+◌, ◌-◌, ◌≡◌, refl, ap, sym, ◌∙◌, Option, none, some, List, [], ◌∷◌, ◌++◌, map,
  take, length, append_assoc, arith,
}
use asio_http.Pool.Layers.{
  Layer, new_layer, index_sequence, drop_first, drop_last, address_at, modify_at, set_lower_layers,
  set_upper_layers, connect_layers, allocate_layers,
}

abbrev top_of : List ℕ → Option ℕ
top_of [] = none
top_of (a ∷ addresses) = some a

-- Layers of which each knows the one above and the one below.
abbrev pub chain : (above : Option ℕ) → (addresses : List ℕ) → List Layer
chain above [] = []
chain above (a ∷ addresses) =
    (record { address = a; upper_layer = above; lower_layer = top_of addresses })
    ∷ chain (some a) addresses

abbrev lowered : List ℕ → List Layer
lowered [] = []
lowered (a ∷ addresses) =
    (record { address = a; upper_layer = none; lower_layer = top_of addresses }) ∷ lowered addresses

module _ (f : Layer → Layer) (x : Layer) (post : List Layer) where
  modify_at-length :
      (pre : List Layer) → modify_at (length pre) f (pre ++ (x ∷ post)) ≡ pre ++ (f x ∷ post)
  unfolding modify_at
  modify_at-length [] = refl
  modify_at-length (y ∷ pre) = ap (◌∷◌ y) (modify_at-length pre)

address_at-length :
    (pre post : List Layer) (x : Layer)
    → address_at (length pre) (pre ++ (x ∷ post)) ≡ some x.address
unfolding address_at
address_at-length [] post x = refl
address_at-length (y ∷ pre) post x = address_at-length pre post x

length_snoc : (pre : List Layer) (x : Layer) → length (pre ++ (x ∷ [])) ≡ suc (length pre)
length_snoc [] x = refl
length_snoc (y ∷ pre) x = ap suc (length_snoc pre x)

-- The next layer is one further.
address_at_next :
    (pre post : List Layer) (x y : Layer)
    → address_at (suc (length pre)) (pre ++ (x ∷ (y ∷ post))) ≡ some y.address
unfolding address_at
address_at_next [] post x y = refl
address_at_next (z ∷ pre) post x y = address_at_next pre post x y

modify_at_next :
    (f : Layer → Layer) (t x : Layer) (post pre : List Layer)
    → modify_at (suc (length pre)) f (pre ++ (t ∷ (x ∷ post))) ≡ pre ++ (t ∷ (f x ∷ post))
unfolding modify_at
modify_at_next f t x post [] = refl
modify_at_next f t x post (y ∷ pre) = ap (◌∷◌ y) (modify_at_next f t x post pre)

one_less : (n : ℕ) → suc n - 1 ≡ n
one_less n = omega arith

one_more : (n : ℕ) → n + 1 ≡ suc n
one_more n = omega arith

-- What goes on behind one more layer.
moved :
    (go : ℕ → List Layer → List Layer) (pre rest out : List Layer) (x : Layer)
    → go (length (pre ++ (x ∷ []))) ((pre ++ (x ∷ [])) ++ rest) ≡ (pre ++ (x ∷ [])) ++ out
    → go (suc (length pre)) (pre ++ (x ∷ rest)) ≡ pre ++ (x ∷ out)
moved go pre rest out x e =
    (λ i. go (sym (length_snoc pre x) i) (sym (append_assoc pre (x ∷ []) rest) i))
    ∙ (e ∙ append_assoc pre (x ∷ []) out)

set_lower_layers-lowered :
    (addresses : List ℕ) (a : ℕ) (pre : List Layer)
    → set_lower_layers
        (index_sequence (length pre) (length addresses))
        (pre ++ map new_layer (a ∷ addresses))
      ≡ pre ++ lowered (a ∷ addresses)
unfolding set_lower_layers index_sequence
set_lower_layers-lowered [] a pre = refl
set_lower_layers-lowered (b ∷ addresses) a pre =
    let x : Layer = record { address = a; upper_layer = none; lower_layer = some b } in
    let rest = map new_layer addresses in
    ap (set_lower_layers (index_sequence (suc (length pre)) (length addresses))) (
      modify_at-length _ (new_layer a) (new_layer b ∷ rest) pre
      ∙ ap
          (λ o.
            pre
            ++ ((record { address = a; upper_layer = none; lower_layer = o })
                ∷ (new_layer b ∷ rest)))
          (ap (λ n. address_at n (pre ++ (new_layer a ∷ (new_layer b ∷ rest))))
              (one_more (length pre))
            ∙ address_at_next pre rest (new_layer a) (new_layer b)))
    ∙ moved (λ n. set_lower_layers (index_sequence n (length addresses))) pre (new_layer b ∷ rest)
        (lowered (b ∷ addresses)) x (set_lower_layers-lowered addresses b (pre ++ (x ∷ [])))

-- Layers that know those below, and the one above each.
abbrev raised : (above : Option ℕ) → List Layer → List Layer
raised above [] = []
raised above (layer ∷ layers) =
    (record layer { upper_layer = above }) ∷ raised (some layer.address) layers

set_upper_layers-raised :
    (layers : List Layer) (top : Layer) (pre : List Layer)
    → set_upper_layers (index_sequence (suc (length pre)) (length layers)) (pre ++ (top ∷ layers))
      ≡ pre ++ (top ∷ raised (some top.address) layers)
unfolding set_upper_layers index_sequence
set_upper_layers-raised [] top pre = refl
set_upper_layers-raised (layer ∷ layers) top pre =
    let x : Layer = record layer { upper_layer = some top.address } in
    ap (set_upper_layers (index_sequence (suc (suc (length pre))) (length layers))) (
      modify_at_next _ top layer layers pre
      ∙ ap (λ o. pre ++ (top ∷ ((record layer { upper_layer = o }) ∷ layers)))
          (ap (λ n. address_at n (pre ++ (top ∷ (layer ∷ layers)))) (one_less (length pre))
            ∙ address_at-length pre (layer ∷ layers) top))
    ∙ moved (λ n. set_upper_layers (index_sequence (suc n) (length layers))) pre (x ∷ layers)
        (x ∷ raised (some x.address) layers) top
        (set_upper_layers-raised layers x (pre ++ (top ∷ [])))

raised-lowered :
    (addresses : List ℕ) (above : Option ℕ)
    → raised above (lowered addresses) ≡ chain above addresses
raised-lowered [] above = refl
raised-lowered (a ∷ addresses) above =
    ap (◌∷◌ (record { address = a; upper_layer = above; lower_layer = top_of addresses }))
      (raised-lowered addresses (some a))

length-index_sequence : (first size : ℕ) → length (index_sequence first size) ≡ size
unfolding index_sequence
length-index_sequence first zero = refl
length-index_sequence first (suc size) = ap suc (length-index_sequence (suc first) size)

take-index_sequence :
    (first size : ℕ) → take size (index_sequence first (suc size)) ≡ index_sequence first size
unfolding index_sequence
take-index_sequence first zero = refl
take-index_sequence first (suc size) = ap (◌∷◌ first) (take-index_sequence (suc first) size)

drop_last-index_sequence :
    (first size : ℕ) → drop_last (index_sequence first (suc size)) ≡ index_sequence first size
unfolding drop_last
drop_last-index_sequence first size =
    ap (λ n. take (n - 1) (index_sequence first (suc size)))
      (length-index_sequence first (suc size))
    ∙ (ap (λ n. take n (index_sequence first (suc size))) (one_less size)
        ∙ take-index_sequence first size)

length-lowered : (addresses : List ℕ) → length (lowered addresses) ≡ length addresses
length-lowered [] = refl
length-lowered (a ∷ addresses) = ap suc (length-lowered addresses)

-- The layers of a new stack, of whatever number, are a chain: each has the address of its object, knows the
-- layer above and the layer below, and the first and the last know none above and none below.
pub allocate_layers-chain : (addresses : List ℕ) → allocate_layers addresses ≡ chain none addresses
unfolding allocate_layers connect_layers index_sequence drop_first drop_last set_lower_layers
    set_upper_layers
allocate_layers-chain [] = refl
allocate_layers-chain (a ∷ addresses) =
    let size = length addresses in
    let top : Layer = record { address = a; upper_layer = none; lower_layer = top_of addresses } in
    ap
      (λ js.
        set_upper_layers (index_sequence 1 size)
          (set_lower_layers js (map new_layer (a ∷ addresses))))
      (drop_last-index_sequence 0 size)
    ∙ (ap (set_upper_layers (index_sequence 1 size)) (set_lower_layers-lowered addresses a [])
        ∙ (ap (λ n. set_upper_layers (index_sequence 1 n) (lowered (a ∷ addresses)))
              (sym (length-lowered addresses))
            ∙ (set_upper_layers-raised (lowered addresses) top []
                ∙ ap (◌∷◌ top) (raised-lowered addresses (some a)))))
