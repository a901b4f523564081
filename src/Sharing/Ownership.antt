-- ===== src/Sharing/Ownership.antt =====
-- That the elements of a tuple_ptr are deleted once, when its last owner goes.
use mathlib.Core.Path.{subst}
use asio_http.Base.{
  ℕ, zero, suc, ◌+◌, ◌⊎◌, ◌≡◌, ◌∙◌, refl, ap, inl, inr, Bool, true, false, Option, none, some, List,
  [], ◌∷◌, ◌++◌, arith, count_by, one_if, count_by-post, if◌then◌else◌,
}
use asio_http.Body.{pos}
use asio_http.Sharing.{
  Store, Operation, copying, moving, destroying, resetting, getting, assigning, add_shared,
  tuple_ptr, pointer_at, set_at, remove_at, share, destroy, assign, operate, operate_all,
}
use asio_http.Sharing.Counts.{
  owners, Counts, enable_weak_this-Counts, owners-set_at, owners-remove_at, recount, share-Counts,
  destroy-Counts,
}

-- The counts of a store that an operation leaves, if it leaves one.
abbrev Sound : ℕ → Option Store → Type 0
Sound k none = Unit
Sound k (some s) = Counts k (owners s.pointers) s.block

-- A lookup that finds nothing leaves no store.
found :
    (k : ℕ) (m : Option Bool) (f : Bool → Option Store)
    → ((p : Bool) → m ≡ some p → Sound k (f p))
    → Sound k (elim m [ none ↦ none | some p ↦ f p ])
found k none f h = tt
found k (some p) f h = h p refl

operate-Sound :
    (k : ℕ) (o : Operation) (s : Store)
    → Counts k (owners s.pointers) s.block
    → Sound k (operate o s)
unfolding operate assign
operate-Sound k (copying i) s counts =
    found k (pointer_at i s.pointers)
      (λ p. some (record { block = share p s.block; pointers = s.pointers ++ (p ∷ []) }))
      (λ p e.
        share-Counts k p (owners s.pointers) (owners (s.pointers ++ (p ∷ []))) s.block
          (omega (arith, owners-remove_at i s.pointers e)) (count_by-post (λ p. p) s.pointers p)
          counts)
operate-Sound k (moving i) s counts =
    found k (pointer_at i s.pointers)
      (λ p. some (record s { pointers = set_at i false s.pointers ++ (p ∷ []) }))
      (λ p e.
        recount k (owners s.pointers) (owners (set_at i false s.pointers ++ (p ∷ []))) s.block
          (omega (
            arith,
            owners-set_at i false s.pointers e,
            count_by-post (λ p. p) (set_at i false s.pointers) p,
          ))
          counts)
operate-Sound k (destroying i) s counts =
    found k (pointer_at i s.pointers)
      (λ p. some (record { block = destroy p s.block; pointers = remove_at i s.pointers }))
      (λ p e.
        destroy-Counts k p (owners s.pointers) (owners (remove_at i s.pointers)) s.block
          (omega (arith, owners-remove_at i s.pointers e)) counts)
operate-Sound k (resetting i) s counts =
    found k (pointer_at i s.pointers)
      (λ p. some (record { block = destroy p s.block; pointers = set_at i false s.pointers }))
      (λ p e.
        destroy-Counts k p (owners s.pointers) (owners (set_at i false s.pointers)) s.block
          (omega (arith, owners-set_at i false s.pointers e)) counts)
operate-Sound k (getting i) s counts =
    found k (pointer_at i s.pointers)
      (λ p.
        if p
        then some (record { block = add_shared s.block; pointers = s.pointers ++ (true ∷ []) })
        else none)
      got
  where
    got :
        (p : Bool)
        → pointer_at i s.pointers ≡ some p
        → Sound k (
            if p
            then some (record { block = add_shared s.block; pointers = s.pointers ++ (true ∷ []) })
            else none)
    got false e = tt
    got true e =
        share-Counts k true (owners s.pointers) (owners (s.pointers ++ (true ∷ []))) s.block
          (omega (arith, owners-remove_at i s.pointers e)) (count_by-post (λ p. p) s.pointers true)
          counts
operate-Sound k (assigning to from) s counts =
    found k (pointer_at to s.pointers) (λ p. assign p to (pointer_at from s.pointers) s)
      (λ p e. assigned p e (pointer_at from s.pointers) refl)
  where
    assigned :
        (p : Bool)
        → pointer_at to s.pointers ≡ some p
        → (m : Option Bool) → pointer_at from s.pointers ≡ m
        → Sound k (assign p to m s)
    assigned p e none f = tt
    assigned p e (some q) f =
        destroy-Counts k p (owners s.pointers + one_if q) (owners (set_at to q s.pointers))
          (share q s.block) (omega (arith, owners-set_at to q s.pointers e))
          (share-Counts k q (owners s.pointers) (owners s.pointers + one_if q) s.block
            (omega (arith, owners-remove_at from s.pointers f)) refl counts)

operate_all-Sound :
    (k : ℕ) (os : List Operation) (s : Store)
    → Counts k (owners s.pointers) s.block
    → Sound k (operate_all os s)
unfolding operate_all
operate_all-Sound k [] s counts = counts
operate_all-Sound k (o ∷ os) s counts =
    go (operate o s) (operate-Sound k o s counts) (λ t counts. operate_all-Sound k os t counts)
  where
    go :
        (m : Option Store)
        → Sound k m
        → ((t : Store) → Counts k (owners t.pointers) t.block → Sound k (operate_all os t))
        → Sound k (elim m [ none ↦ none | some t ↦ operate_all os t ])
    go none sound again = tt
    go (some t) sound again = again t sound

tuple_ptr-Counts : (k : ℕ) → Counts k (owners (tuple_ptr k).pointers) (tuple_ptr k).block
unfolding tuple_ptr count_by
tuple_ptr-Counts k =
    let (w, s, e, d, f) = enable_weak_this-Counts k 0 _ refl in
    (s, w ∙ ap pos (omega arith), e, d, f)

-- After any operations on the pointers that grew out of one constructor call, the elements have been
-- deleted once and the block deallocated once if no pointer that is not null is left; if one is left,
-- neither has happened, and the shared count is one less than the number of such pointers.
pub operate_all-owners :
    (k : ℕ) (os : List Operation) (s : Store)
    → operate_all os (tuple_ptr k) ≡ some s
    → ((owners s.pointers ≡ 0) × (s.block.deletions ≡ 1) × (s.block.deallocations ≡ 1))
      ⊎ ((n : ℕ) × (owners s.pointers ≡ suc n)
          × (s.block.shared_owners ≡ pos n)
          × (s.block.deletions ≡ 0)
          × (s.block.deallocations ≡ 0))
operate_all-owners k os s h =
    settled (owners s.pointers) refl
      (subst (Sound k) h (operate_all-Sound k os (tuple_ptr k) (tuple_ptr-Counts k)))
  where
    settled :
        (n : ℕ)
        → owners s.pointers ≡ n
        → Counts k n s.block
        → ((owners s.pointers ≡ 0) × (s.block.deletions ≡ 1) × (s.block.deallocations ≡ 1))
          ⊎ ((n : ℕ) × (owners s.pointers ≡ suc n)
              × (s.block.shared_owners ≡ pos n)
              × (s.block.deletions ≡ 0)
              × (s.block.deallocations ≡ 0))
    settled zero e (d, f) = inl (e, d, f)
    settled (suc n) e (s, w, el, d, f) = inr (n, e, s, d, f)
