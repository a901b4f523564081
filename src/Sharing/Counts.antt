-- ===== src/Sharing/Counts.antt =====
-- What taking and releasing do to the counts of a control block, and to the pointers.
use mathlib.Core.Path.{subst}
use asio_http.Base.{
  ℕ, zero, suc, ◌+◌, ◌≤◌, ◌≡◌, ◌∙◌, refl, ap, sym, Bool, true, false, some, List, [], ◌∷◌, arith,
  count_by, one_if,
}
use asio_http.Body.{pos}
use asio_http.Sharing.{
  Block, add_shared, add_weak, release_weak, release_elements, on_zero_shared, release_shared,
  enable_weak_this, pointer_at, set_at, remove_at, share, destroy, increment, decrement,
}

-- The pointers that are not null.
abbrev pub owners : List Bool → ℕ
owners ps = count_by (λ p. p) ps

-- With owners, the counts are theirs and that of the elements, and nothing was deleted or deallocated.
-- Without, both happened once.
abbrev pub Counts : (elements owners : ℕ) → Block → Type 0
Counts k zero b = (b.deletions ≡ 1) × (b.deallocations ≡ 1)
Counts k (suc n) b =
    (b.shared_owners ≡ pos n)
    × (b.shared_weak_owners ≡ pos k)
    × (b.elements ≡ k)
    × (b.deletions ≡ 0)
    × (b.deallocations ≡ 0)

pub add_shared-Counts :
    (k n : ℕ) (b : Block) → Counts k (suc n) b → Counts k (suc (suc n)) (add_shared b)
unfolding add_shared
add_shared-Counts k n b (s, w, e, d, f) = (ap increment s, w, e, d, f)

pub release_elements-last :
    (k : ℕ) (b : Block)
    → b.shared_weak_owners ≡ pos k
    → ((release_elements k b).shared_weak_owners ≡ pos 0)
      × ((release_elements k b).deletions ≡ b.deletions)
      × ((release_elements k b).deallocations ≡ b.deallocations)
unfolding release_elements release_weak
release_elements-last zero b w = (w, refl, refl)
release_elements-last (suc k) b w =
    rw w (release_elements-last k (record b { shared_weak_owners = pos k }) refl)

pub release_weak-last :
    (b : Block)
    → b.shared_weak_owners ≡ pos 0
    → ((release_weak b).deletions ≡ b.deletions)
      × ((release_weak b).deallocations ≡ b.deallocations + 1)
unfolding release_weak
release_weak-last b w = rw w (refl, refl)

pub release_shared-Counts :
    (k n : ℕ) (b : Block) → Counts k (suc n) b → Counts k n (release_shared b)
unfolding release_shared on_zero_shared
release_shared-Counts k (suc n) b (s, w, e, d, f) = rw s (refl, w, e, d, f)
release_shared-Counts k zero b (s, w, e, d, f) =
    let c = record b { shared_owners = decrement (pos 0); deletions = b.deletions + 1 } in
    let (none_left, same_deletions, same_deallocations) =
      release_elements-last b.elements c (w ∙ ap pos (sym e)) in
    let (deletions, deallocations) = release_weak-last (release_elements b.elements c) none_left in
    rw s (
      omega (arith, d, deletions, same_deletions),
      omega (arith, f, deallocations, same_deallocations),
    )

pub enable_weak_this-Counts :
    (k n : ℕ) (b : Block)
    → b.shared_weak_owners ≡ pos n
    → ((enable_weak_this k b).shared_weak_owners ≡ pos (n + k))
      × ((enable_weak_this k b).shared_owners ≡ b.shared_owners)
      × ((enable_weak_this k b).elements ≡ b.elements)
      × ((enable_weak_this k b).deletions ≡ b.deletions)
      × ((enable_weak_this k b).deallocations ≡ b.deallocations)
unfolding enable_weak_this add_weak
enable_weak_this-Counts zero n b w = (w ∙ ap pos (omega arith), refl, refl, refl, refl)
enable_weak_this-Counts (suc k) n b w =
    let (weak, s, e, d, f) = enable_weak_this-Counts k (suc n) (add_weak b) (ap increment w) in
    (weak ∙ ap pos (omega arith), s, e, d, f)

pub some-injective : {p q : Bool} → some p ≡ some q → p ≡ q
some-injective h = cc

-- The owners once a place is set or removed.
pub owners-set_at :
    (i : ℕ) (q : Bool) {p : Bool} (ps : List Bool)
    → pointer_at i ps ≡ some p
    → owners (set_at i q ps) + one_if p ≡ owners ps + one_if q
unfolding pointer_at set_at count_by
owners-set_at i q [] h = cc
owners-set_at zero q (p ∷ ps) h = omega (arith, ap one_if (some-injective h))
owners-set_at (suc i) q (p ∷ ps) h = omega (arith, owners-set_at i q ps h)

pub owners-remove_at :
    (i : ℕ) {p : Bool} (ps : List Bool)
    → pointer_at i ps ≡ some p
    → owners (remove_at i ps) + one_if p ≡ owners ps
unfolding pointer_at remove_at count_by
owners-remove_at i [] h = cc
owners-remove_at zero (p ∷ ps) h = omega (arith, ap one_if (some-injective h))
owners-remove_at (suc i) (p ∷ ps) h = omega (arith, owners-remove_at i ps h)

pub recount : (k n m : ℕ) (b : Block) → n ≡ m → Counts k n b → Counts k m b
recount k n m b e counts = subst (λ i. Counts k i b) e counts

pub share-Counts :
    (k : ℕ) (p : Bool) (n m : ℕ) (b : Block)
    → one_if p ≤ n
    → m ≡ n + one_if p
    → Counts k n b
    → Counts k m (share p b)
share-Counts k false n m b h e counts = recount k n m b (omega (arith, e)) counts
share-Counts k true (suc n) m b h e counts =
    recount k (suc (suc n)) m (add_shared b) (omega (arith, e)) (add_shared-Counts k n b counts)
share-Counts k true zero m b h e counts = elim (impossible h) [ ]
  where
    impossible : 1 ≤ 0 → ⊥
    impossible h = omega arith

pub destroy-Counts :
    (k : ℕ) (p : Bool) (n m : ℕ) (b : Block)
    → n ≡ m + one_if p
    → Counts k n b
    → Counts k m (destroy p b)
destroy-Counts k false n m b e counts = recount k n m b (omega (arith, e)) counts
destroy-Counts k true n m b e counts =
    release_shared-Counts k m b (recount k n (suc m) b (omega (arith, e)) counts)
