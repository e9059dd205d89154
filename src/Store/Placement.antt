-- ===== src/Store/Placement.antt =====
-- `SimplePlacementPolicy` (store/placement_policy.cpp): which stores take the replicas.
pub mod Selection
use cqupt_block_storage.Base.{
  ℕ, suc, ◌-◌, List, [], ◌∷◌, Bool, true, false, not, ltb, leb, ◌==◌, if◌then◌else◌, is_empty,
  length, take, map, nat_key, bytes_key, find, insert, values, sort_by,
}
use cqupt_block_storage.Common.Status
use cqupt_block_storage.Common.Status.{Result, ok, err, ⊤, invalid_argument, resource_exhausted}
use cqupt_block_storage.Store.Types.{StoreState, StoreInfo, store_state_eq}
use cqupt_block_storage.Store.Address.{address_key}
use cqupt_block_storage.Store.Registry.{is_known_state, is_some}

pub record PlacementRequest : Type 0 where
  pub replica_count : ℕ
  pub required_capacity_bytes : ℕ

pub record EligibleStore : Type 0 where
  pub id : ℕ
  pub remaining_capacity : ℕ

unfoldable pub validate_request : PlacementRequest → Result ⊤
validate_request q =
    if q.replica_count == 0
    then err invalid_argument
    else if q.required_capacity_bytes == 0
    then err invalid_argument
    else ok tt

unfoldable pub validate_candidate : StoreInfo → Result ⊤
validate_candidate s =
    if s.id == 0
    then err invalid_argument
    else if is_empty s.address.host
    then err invalid_argument
    else if s.address.port == 0
    then err invalid_argument
    else if not (is_known_state s.state)
    then err invalid_argument
    else if s.generation == 0
    then err invalid_argument
    else if ltb s.capacity_bytes s.used_bytes
    then err invalid_argument
    else ok tt

-- the loop over the candidates, with `by_id` and `by_address`
unfoldable pub index_candidates :
    List (ℕ × StoreInfo) → List (List ℕ × ℕ) → List StoreInfo → Result (List (ℕ × StoreInfo))
unfolding validate_candidate find insert address_key
index_candidates by_id by_address [] = ok by_id
index_candidates by_id by_address (s ∷ ss) = Status.◌>>◌ (validate_candidate s) (
    if is_some (find s.id by_id)
    then err invalid_argument
    else if is_some (find (address_key s.address) by_address)
    then err invalid_argument
    else index_candidates (insert s.id s by_id) (insert (address_key s.address) s.id by_address) ss)

-- `running_count`
unfoldable pub count_running : List StoreInfo → ℕ
count_running [] = 0
count_running (s ∷ ss) =
    let rest = count_running ss in
    if store_state_eq s.state StoreState.running then suc rest else rest

unfoldable pub eligible_stores : ℕ → List StoreInfo → List EligibleStore
eligible_stores required [] = []
eligible_stores required (s ∷ ss) =
    let rest = eligible_stores required ss in
    if not (store_state_eq s.state StoreState.running)
    then rest
    else if leb required (s.capacity_bytes - s.used_bytes)
    then (record { id = s.id; remaining_capacity = s.capacity_bytes - s.used_bytes }) ∷ rest
    else rest

-- the order of the `std::sort`: most space first, then the lower id
abbrev pub is_before : EligibleStore → EligibleStore → Bool
is_before a b =
    if not (a.remaining_capacity == b.remaining_capacity)
    then ltb b.remaining_capacity a.remaining_capacity
    else ltb a.id b.id

unfoldable pub sort_eligible : List EligibleStore → List EligibleStore
unfolding sort_by
sort_eligible stores = sort_by is_before stores

-- the end of `SelectStores`, with the stores that can take a replica
unfoldable pub choose : PlacementRequest → List StoreInfo → Result (List ℕ)
unfolding count_running eligible_stores sort_eligible
choose q stores =
    let eligible = eligible_stores q.required_capacity_bytes stores in
    if ltb (count_running stores) q.replica_count
    then err resource_exhausted
    else if ltb (length eligible) q.replica_count
    then err resource_exhausted
    else ok (map (λ a. a.id) (take q.replica_count (sort_eligible eligible)))

unfoldable pub select_stores : PlacementRequest → List StoreInfo → Result (List ℕ)
unfolding validate_request index_candidates choose
select_stores q candidates =
    Status.◌>>◌ (validate_request q)
      (Status.◌>>=◌ (index_candidates [] [] candidates) λ by_id. choose q (values by_id))
