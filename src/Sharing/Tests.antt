-- ===== src/Sharing/Tests.antt =====
-- A pointer that is copied and whose owners go one by one.
use asio_http.Base.{ℕ, suc, ◌≡◌, ◌⊎◌, refl, List, some, [], ◌∷◌}
use asio_http.Body.{pos, negsuc}
use asio_http.Sharing.{
  Store, Operation, copying, destroying, getting, tuple_ptr, operate_all, operate,
}
use asio_http.Sharing.Counts.{owners}
use asio_http.Sharing.Ownership.{operate_all-owners}

abbrev operations : List Operation
operations = copying 0 ∷ (getting 1 ∷ (destroying 0 ∷ (destroying 0 ∷ (destroying 0 ∷ []))))

abbrev ended : Store
ended = record {
  block = record {
    shared_owners = negsuc 0;
    shared_weak_owners = pos 0;
    elements = 2;
    deletions = 1;
    deallocations = 1;
  };
  pointers = [];
}

ends : operate_all operations (tuple_ptr 2) ≡ some ended
unfolding operate_all operate tuple_ptr
ends = refl

operate_all-owners_example :
    ((owners ended.pointers ≡ 0) × (ended.block.deletions ≡ 1) × (ended.block.deallocations ≡ 1))
    ⊎ ((n : ℕ) × (owners ended.pointers ≡ suc n)
        × (ended.block.shared_owners ≡ pos n)
        × (ended.block.deletions ≡ 0)
        × (ended.block.deallocations ≡ 0))
operate_all-owners_example = operate_all-owners 2 operations ended ends
