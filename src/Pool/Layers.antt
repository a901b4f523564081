-- ===== src/Pool/Layers.antt =====
-- implementation/connection_pool.cpp: how the layers of a new stack are made and joined, by index sequences.
pub mod Chain
use asio_http.Base.{ℕ, zero, suc, ◌+◌, ◌-◌, Option, none, some, List, [], ◌∷◌, map, take, length}

-- A layer with its pointers to the layers above and below, which are null in the model as long as they are
-- not set.
pub record Layer : Type 0 where
  pub address : ℕ
  pub upper_layer : Option ℕ
  pub lower_layer : Option ℕ

abbrev pub new_layer : (address : ℕ) → Layer
new_layer address = record { address = address; upper_layer = none; lower_layer = none }

-- `std::make_index_sequence`, from a first index on.
unfoldable pub index_sequence : (first size : ℕ) → List ℕ
index_sequence first zero = []
index_sequence first (suc size) = first ∷ index_sequence (suc first) size

unfoldable pub drop_first : List ℕ → List ℕ
drop_first [] = []
drop_first (x ∷ xs) = xs

-- The elements at the indices up to one less than the size.
unfoldable pub drop_last : List ℕ → List ℕ
drop_last xs = take (length xs - 1) xs

-- `std::get<N>(tuple).get()`
unfoldable pub address_at : ℕ → List Layer → Option ℕ
address_at n [] = none
address_at zero (layer ∷ layers) = some layer.address
address_at (suc n) (layer ∷ layers) = address_at n layers

-- `std::get<N>(tuple)->`, assigned to.
unfoldable pub modify_at : ℕ → (Layer → Layer) → List Layer → List Layer
modify_at n f [] = []
modify_at zero f (layer ∷ layers) = f layer ∷ layers
modify_at (suc n) f (layer ∷ layers) = layer ∷ modify_at n f layers

unfoldable pub set_lower_layers : List ℕ → List Layer → List Layer
unfolding modify_at address_at
set_lower_layers [] layers = layers
set_lower_layers (j ∷ js) layers =
    set_lower_layers js
      (modify_at j (λ layer. record layer { lower_layer = address_at (j + 1) layers }) layers)

unfoldable pub set_upper_layers : List ℕ → List Layer → List Layer
unfolding modify_at address_at
set_upper_layers [] layers = layers
set_upper_layers (i ∷ is) layers =
    set_upper_layers is
      (modify_at i (λ layer. record layer { upper_layer = address_at (i - 1) layers }) layers)

unfoldable pub connect_layers : (is js : List ℕ) → List Layer → List Layer
unfolding set_lower_layers set_upper_layers
connect_layers is js layers = set_upper_layers is (set_lower_layers js layers)

-- The addresses are those of the layers that `new` makes, in order from the top.
unfoldable pub allocate_layers : List ℕ → List Layer
unfolding connect_layers index_sequence drop_first drop_last
allocate_layers addresses =
    let indices = index_sequence 0 (length addresses) in
    connect_layers (drop_first indices) (drop_last indices) (map new_layer addresses)
