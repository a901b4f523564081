-- ===== src/Manager/Requests/Order.antt =====
-- The nodes stay in the order of index_state, so that its first node waits if any node does.
use asio_http.Base.{
  true, false, not, ◌&&◌, List, [], ◌∷◌, ◌++◌, ◌≡◌, refl, arith, inl, inr, Bool-cases, count_by,
  All,
}
use asio_http.Manager.Requests.{
  Node, rank, is_active, key_le, insert_node, last_le, le_head, relocate,
}
use asio_http.Manager.Requests.Places.{All-append, All-split, All-insert_node}

abbrev pub IsBelow : Node → Node → Type 0
IsBelow x y = key_le x y ≡ true

-- Each node's key is at most that of every node behind it.
abbrev pub IsSorted : List Node → Type 0
IsSorted [] = Unit
IsSorted (x ∷ xs) = All (IsBelow x) xs × IsSorted xs

key_le_trans : (a b c : Node) → IsBelow a b → IsBelow b c → IsBelow a c
unfolding key_le
key_le_trans a b c h k = ground arith

key_le_total : (a b : Node) → key_le a b ≡ false → IsBelow b a
unfolding key_le
key_le_total a b h = ground arith

All-trans : (a b : Node) (xs : List Node) → IsBelow a b → All (IsBelow b) xs → All (IsBelow a) xs
All-trans a b [] h k = tt
All-trans a b (x ∷ xs) h k = (key_le_trans a b x h k.0, All-trans a b xs h k.1)

pub insert_node-IsSorted : (x : Node) (xs : List Node) → IsSorted xs → IsSorted (insert_node x xs)
unfolding insert_node
insert_node-IsSorted x [] s = (tt, tt)
insert_node-IsSorted x (y ∷ ys) s = elim (Bool-cases (key_le y x)) [
  | inl below ↦ rw below (All-insert_node (IsBelow y) x ys below s.0, insert_node-IsSorted x ys s.1)
  | inr above ↦
      let x_below : IsBelow x y = key_le_total y x above in
      rw above ((x_below, All-trans x y ys x_below s.0), s)
]

append-IsSorted :
    (xs : List Node) (x : Node) (ys : List Node)
    → IsSorted (xs ++ ys)
    → last_le xs x ≡ true
    → le_head x ys ≡ true
    → IsSorted (xs ++ (x ∷ ys))
append-IsSorted [] x [] s l h = (tt, tt)
append-IsSorted [] x (y ∷ ys) s l h = ((h, All-trans x y ys h s.0), s)
append-IsSorted (z ∷ []) x ys s l h =
    let later = append-IsSorted [] x ys s.1 refl h in ((l, s.0), later)
append-IsSorted (z ∷ w ∷ xs) x ys s l h =
    let later = append-IsSorted (w ∷ xs) x ys s.1 l h in
    let parts = All-split (IsBelow z) (w ∷ xs) ys s.0 in
    ((parts.0.0, All-trans z w (xs ++ (x ∷ ys)) parts.0.0 later.0), later)

pub relocate-IsSorted :
    (before : List Node) (x : Node) (after : List Node)
    → IsSorted (before ++ after)
    → IsSorted (relocate before x after)
unfolding relocate
relocate-IsSorted before x after s = elim (Bool-cases (last_le before x && le_head x after)) [
  | inl fits ↦ rw fits (append-IsSorted before x after s (ground arith) (ground arith))
  | inr moves ↦ rw moves (insert_node-IsSorted x (before ++ after) s)
]

pub erase-IsSorted :
    (before : List Node) (x : Node) (after : List Node)
    → IsSorted (before ++ (x ∷ after))
    → IsSorted (before ++ after)
erase-IsSorted [] x after s = s.1
erase-IsSorted (y ∷ before) x after s =
    let parts = All-split (IsBelow y) before (x ∷ after) s.0 in
    (All-append (IsBelow y) before after parts.0 parts.1.1, erase-IsSorted before x after s.1)

active_above : (x y : Node) → is_active x ≡ true → IsBelow x y → is_active y ≡ true
unfolding is_active key_le rank
active_above x y h k = ground arith

-- If the first node runs, all do.
pub first_active :
    (x : Node) (xs : List Node)
    → All (IsBelow x) xs
    → is_active x ≡ true
    → count_by (λ n. not (is_active n)) xs ≡ 0
unfolding count_by
first_active x [] h e = refl
first_active x (y ∷ ys) h e = ground (arith, active_above x y, first_active x ys h.1)
