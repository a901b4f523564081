-- ===== src/Manager/Requests/Places.antt =====
-- Where the container's operations leave each node, as counts for every test on nodes.
use asio_http.Base.{
  ◌+◌, Bool, true, ◌&&◌, List, [], ◌∷◌, ◌++◌, none, some, ◌≡◌, refl, arith, inl, inr, Bool-cases,
  Option-cases, count_by, count_by-append, count_by-cons, one_if, All,
}
use asio_http.Manager.Requests.{
  Node, key_le, insert_node, last_le, le_head, relocate, Split, find_split,
}

abbrev pub whole : Split → List Node
whole s = s.before ++ (s.found ∷ s.after)

pub count_by-insert_node :
    (p : Node → Bool) (x : Node) (xs : List Node)
    → count_by p (insert_node x xs) ≡ one_if (p x) + count_by p xs
unfolding insert_node count_by
count_by-insert_node p x [] = refl
count_by-insert_node p x (y ∷ ys) = ground (arith, count_by-insert_node p x ys)

pub count_by-relocate :
    (p : Node → Bool) (before : List Node) (x : Node) (after : List Node)
    → count_by p (relocate before x after) ≡ one_if (p x) + count_by p before + count_by p after
unfolding relocate
count_by-relocate p before x after = ground (
  arith,
  count_by-insert_node p x (before ++ after),
  count_by-append p before after,
  count_by-append p before (x ∷ after),
  count_by-cons p x after,
)

pub count_by-whole :
    (p : Node → Bool) (s : Split)
    → count_by p (whole s) ≡ one_if (p s.found) + count_by p s.before + count_by p s.after
count_by-whole p s =
    omega (arith, count_by-append p s.before (s.found ∷ s.after), count_by-cons p s.found s.after)

-- The split puts the container together again, at a node that passes the test.
pub find_split_lem :
    (p : Node → Bool) (xs : List Node) (s : Split)
    → find_split p xs ≡ some s
    → (xs ≡ whole s) × (p s.found ≡ true)
unfolding find_split
find_split_lem p [] s e = cc
find_split_lem p (x ∷ xs) s e = elim (Bool-cases (p x)) [
  | inl hit ↦ ground arith
  | inr miss ↦ elim (Option-cases (find_split p xs)) [
    | inl gone ↦ ground arith
    | inr (t, found) ↦ ground (arith, find_split_lem p xs t found)
  ]
]

pub find_split-count_by :
    (p : Node → Bool) (xs : List Node) → find_split p xs ≡ none → count_by p xs ≡ 0
unfolding find_split count_by
find_split-count_by p [] e = refl
find_split-count_by p (x ∷ xs) e = elim (Option-cases (find_split p xs)) [
  | inl gone ↦ ground (arith, find_split-count_by p xs gone)
  | inr (t, found) ↦ ground arith
]

module _ {κ} (P : Node → Type κ) where
  pub All-append : (xs ys : List Node) → All P xs → All P ys → All P (xs ++ ys)
  All-append [] ys hx hy = hy
  All-append (x ∷ xs) ys hx hy = (hx.0, All-append xs ys hx.1 hy)

  pub All-split : (xs ys : List Node) → All P (xs ++ ys) → All P xs × All P ys
  All-split [] ys h = (tt, h)
  All-split (x ∷ xs) ys h = let r = All-split xs ys h.1 in ((h.0, r.0), r.1)

  pub All-insert_node : (x : Node) (xs : List Node) → P x → All P xs → All P (insert_node x xs)
  unfolding insert_node
  All-insert_node x [] hx h = (hx, tt)
  All-insert_node x (y ∷ ys) hx h = elim (Bool-cases (key_le y x)) [
    | inl below ↦ rw below (h.0, All-insert_node x ys hx h.1)
    | inr above ↦ rw above (hx, h)
  ]

  pub All-relocate :
      (before : List Node) (x : Node) (after : List Node)
      → All P before
      → P x
      → All P after
      → All P (relocate before x after)
  unfolding relocate
  All-relocate before x after hb hx ha = elim (Bool-cases (last_le before x && le_head x after)) [
    | inl fits ↦ rw fits (All-append before (x ∷ after) hb (hx, ha))
    | inr moves ↦ rw moves (All-insert_node x (before ++ after) hx (All-append before after hb ha))
  ]
