-- ===== src/Sharing.antt =====
-- internal/tuple_ptr.h: the shared ownership of the layers of a connection. One control block, and the
-- pointers to it that are alive.
pub mod Counts
pub mod Ownership
pub mod Comparisons
mod Tests
use asio_http.Base.{
  ℕ, zero, suc, ◌+◌, Bool, true, false, Option, none, some, List, [], ◌∷◌, ◌++◌, if◌then◌else◌,
}
use asio_http.Body.{ℤ, pos, negsuc}

-- `fetch_add` and `fetch_sub` of 1.
abbrev pub increment : ℤ → ℤ
increment (pos n) = pos (suc n)
increment (negsuc zero) = pos zero
increment (negsuc (suc n)) = negsuc n

abbrev pub decrement : ℤ → ℤ
decrement (pos zero) = negsuc zero
decrement (pos (suc n)) = pos n
decrement (negsuc n) = negsuc (suc n)

abbrev pub is_zero : ℤ → Bool
is_zero (pos zero) = true
is_zero _ = false

-- A control block: its counts, each one less than the owners, how many of its elements refer back to
-- it as a shared_tuple_base, and how often the elements were deleted and the block deallocated.
pub record Block : Type 0 where
  pub shared_owners : ℤ
  pub shared_weak_owners : ℤ
  pub elements : ℕ
  pub deletions : ℕ
  pub deallocations : ℕ

unfoldable pub add_shared : Block → Block
add_shared b = record b { shared_owners = increment b.shared_owners }

unfoldable pub add_weak : Block → Block
add_weak b = record b { shared_weak_owners = increment b.shared_weak_owners }

abbrev pub on_zero_shared_weak : Block → Block
on_zero_shared_weak b = record b { deallocations = b.deallocations + 1 }

-- The second test is of the value before the subtraction.
unfoldable pub release_weak : Block → Block
release_weak b =
    if is_zero b.shared_weak_owners
    then on_zero_shared_weak b
    else let c = record b { shared_weak_owners = decrement b.shared_weak_owners } in
      if is_zero b.shared_weak_owners then on_zero_shared_weak c else c

-- The destructors of the shared_tuple_base of this many elements.
unfoldable pub release_elements : ℕ → Block → Block
unfolding release_weak
release_elements zero b = b
release_elements (suc n) b = release_elements n (release_weak b)

-- Every element is deleted.
unfoldable pub on_zero_shared : Block → Block
unfolding release_elements
on_zero_shared b = release_elements b.elements (record b { deletions = b.deletions + 1 })

-- `release_shared` of shared_weak_count, with the one of shared_count that it calls.
unfoldable pub release_shared : Block → Block
unfolding on_zero_shared release_weak
release_shared b =
    let c = record b { shared_owners = decrement b.shared_owners } in
    if is_zero b.shared_owners then release_weak (on_zero_shared c) else c

-- `enable_weak_this` for this many new elements, which have no control block yet.
unfoldable pub enable_weak_this : ℕ → Block → Block
unfolding add_weak
enable_weak_this zero b = b
enable_weak_this (suc n) b = enable_weak_this n (add_weak b)

-- The pointers that are alive, each null or an owner of the block.
pub record Store : Type 0 where
  pub block : Block
  pub pointers : List Bool

-- The constructor from plain pointers, with `elements` elements that derive from shared_tuple_base.
unfoldable pub tuple_ptr : (elements : ℕ) → Store
unfolding enable_weak_this
tuple_ptr elements = record {
  block = enable_weak_this elements (record {
    shared_owners = pos 0;
    shared_weak_owners = pos 0;
    elements = elements;
    deletions = 0;
    deallocations = 0;
  });
  pointers = true ∷ [];
}

unfoldable pub pointer_at : ℕ → List Bool → Option Bool
pointer_at n [] = none
pointer_at zero (p ∷ ps) = some p
pointer_at (suc n) (p ∷ ps) = pointer_at n ps

unfoldable pub set_at : ℕ → Bool → List Bool → List Bool
set_at n q [] = []
set_at zero q (p ∷ ps) = q ∷ ps
set_at (suc n) q (p ∷ ps) = p ∷ set_at n q ps

unfoldable pub remove_at : ℕ → List Bool → List Bool
remove_at n [] = []
remove_at zero (p ∷ ps) = ps
remove_at (suc n) (p ∷ ps) = p ∷ remove_at n ps

-- What the constructors do for a pointer that is not null, and the destructor.
abbrev pub share : Bool → Block → Block
share p b = if p then add_shared b else b

abbrev pub destroy : Bool → Block → Block
destroy p b = if p then release_shared b else b

-- What a program does with pointers, by their places: copy and move construction, the destructor, an
-- assignment, `reset`, and a new pointer to one element, by `get<N>` or by the element's own
-- `shared_from_this`.
pub data Operation : Type 0 where
  copying moving destroying resetting getting : ℕ → Operation
  assigning : (to from : ℕ) → Operation

-- A copy of the right side is swapped in, and the old left side destroyed after it.
unfoldable pub assign : Bool → ℕ → Option Bool → Store → Option Store
unfolding set_at add_shared release_shared
assign p to none s = none
assign p to (some q) s =
    some (record { block = destroy p (share q s.block); pointers = set_at to q s.pointers })

-- No such place has no result, and neither has a `get` of a null pointer, which the code dereferences.
unfoldable pub operate : Operation → Store → Option Store
unfolding pointer_at set_at remove_at add_shared release_shared assign
operate (copying i) s = elim (pointer_at i s.pointers) [
  | none ↦ none
  | some p ↦ some (record { block = share p s.block; pointers = s.pointers ++ (p ∷ []) })
]
operate (moving i) s = elim (pointer_at i s.pointers) [
  | none ↦ none
  | some p ↦ some (record s { pointers = set_at i false s.pointers ++ (p ∷ []) })
]
operate (destroying i) s = elim (pointer_at i s.pointers) [
  | none ↦ none
  | some p ↦ some (record { block = destroy p s.block; pointers = remove_at i s.pointers })
]
operate (resetting i) s = elim (pointer_at i s.pointers) [
  | none ↦ none
  | some p ↦ some (record { block = destroy p s.block; pointers = set_at i false s.pointers })
]
operate (getting i) s = elim (pointer_at i s.pointers) [
  | none ↦ none
  | some p ↦
      if p
      then some (record { block = add_shared s.block; pointers = s.pointers ++ (true ∷ []) })
      else none
]
operate (assigning to from) s = elim (pointer_at to s.pointers) [
  | none ↦ none
  | some p ↦ assign p to (pointer_at from s.pointers) s
]

unfoldable pub operate_all : List Operation → Store → Option Store
unfolding operate
operate_all [] s = some s
operate_all (o ∷ os) s = elim (operate o s) [ none ↦ none | some t ↦ operate_all os t ]
