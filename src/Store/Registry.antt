-- ===== src/Store/Registry.antt =====
-- `class StoreRegistry` (store/store_registry.cpp): the stores by id, and an index by address.
pub mod Index
pub mod Lookup
use cqupt_block_storage.Base.{
  ℕ, suc, ◌+◌, ◌-◌, ◌*◌, List, [], ◌∷◌, Bool, true, false, not, ◌&&◌, ◌||◌, Option, none, some, ltb,
  ◌==◌, if◌then◌else◌, is_empty, length, nat_key, bytes_key, find, insert, erase, values, u64_mod,
  map,
}
use cqupt_block_storage.Base.Int.{ℤ, pos, is_negative}
use cqupt_block_storage.Common.Status
use cqupt_block_storage.Common.Status.{
  Result, ok, err, ⊤, reject_if, invalid_argument, busy, not_found, internal_error,
}
use cqupt_block_storage.Common.Action.{Action, pure, check, modify, refuse_if, ◌>>=◌, ◌>>◌}
use cqupt_block_storage.Store.Types.{
  StoreState, StoreAddress, StoreInfo, PersistentStoreInfo, StoreUpdate, store_state_eq,
}
use cqupt_block_storage.Store.Address.{address_key}

-- `stores_` and `address_index_`
pub record StoreRegistry : Type 0 where
  pub stores : List (ℕ × StoreInfo)
  pub address_index : List (List ℕ × ℕ)

abbrev pub empty_registry : StoreRegistry
empty_registry = record { stores = []; address_index = [] }

abbrev pub max_store_host_bytes : ℕ
max_store_host_bytes = 4 * 1024

abbrev pub is_known_state : StoreState → Bool
is_known_state s =
    store_state_eq s StoreState.running
    || (store_state_eq s StoreState.stopped || store_state_eq s StoreState.failed)

abbrev pub validate_store_id : ℕ → Result ⊤
validate_store_id id = reject_if (id == 0) invalid_argument

unfoldable pub validate_address : StoreAddress → Result ⊤
validate_address a =
    if is_empty a.host
    then err invalid_argument
    else if ltb max_store_host_bytes (length a.host)
    then err invalid_argument
    else if a.port == 0
    then err invalid_argument
    else ok tt

unfoldable pub validate_store_fields : StoreInfo → Result ⊤
unfolding validate_address
validate_store_fields s = Status.◌>>◌ (validate_store_id s.id) (
    Status.◌>>◌ (validate_address s.address) (
      if s.capacity_bytes == 0
      then err invalid_argument
      else if ltb s.capacity_bytes s.used_bytes
      then err invalid_argument
      else if not (is_known_state s.state)
      then err invalid_argument
      else if s.generation == 0
      then err invalid_argument
      else ok tt))

-- `FromPersistent` and `ToPersistent`
abbrev pub from_persistent : PersistentStoreInfo → StoreInfo
from_persistent p = record {
  id = p.id;
  address = p.address;
  capacity_bytes = p.capacity_bytes;
  used_bytes = p.used_bytes;
  state = p.state;
  generation = p.generation;
  last_heartbeat_ms = pos 0;
}

abbrev pub to_persistent : StoreInfo → PersistentStoreInfo
to_persistent s = record {
  id = s.id;
  address = s.address;
  capacity_bytes = s.capacity_bytes;
  used_bytes = s.used_bytes;
  state = s.state;
  generation = s.generation;
}

-- `stores_.emplace` and `address_index_.emplace`
unfoldable pub add_store : StoreInfo → StoreRegistry → StoreRegistry
add_store s r = record {
  stores = insert s.id s r.stores;
  address_index = insert (address_key s.address) s.id r.address_index;
}

-- `find(id) != end()`
abbrev pub is_some {ℓ} : {A : Type ℓ} → Option A → Bool
is_some none = false
is_some (some a) = true

-- the two tests with which a new id and a new address are admitted
unfoldable pub refuse_known : StoreInfo → StoreRegistry → Result ⊤
unfolding find address_key
refuse_known s r =
    if is_some (find s.id r.stores)
    then err busy
    else if is_some (find (address_key s.address) r.address_index)
    then err busy
    else ok tt

unfoldable pub register_store : StoreInfo → Action StoreRegistry StoreInfo
register_store store =
    let candidate = record store { state = StoreState.running; generation = 1 } in
    do
      check λ r. validate_store_fields candidate
      refuse_if (λ r. is_negative candidate.last_heartbeat_ms) invalid_argument
      check (refuse_known candidate)
      modify (add_store candidate)
      pure candidate

-- `stores_.find(id)`, an error where it ends
unfoldable pub lookup_store : ℕ → StoreRegistry → Result StoreInfo
unfolding find
lookup_store id r = elim (find id r.stores) [ none ↦ err not_found | some s ↦ ok s ]

-- the write through the iterator
unfoldable pub put_store : ℕ → StoreInfo → StoreRegistry → StoreRegistry
put_store id s r = record r { stores = insert id s r.stores }

-- an optional new value
abbrev pub or_old {ℓ} : {A : Type ℓ} → Option A → A → A
or_old none old = old
or_old (some new) old = new

-- `!update.capacity_bytes && !update.used_bytes && !update.state`
abbrev pub changes_nothing : StoreUpdate → Bool
changes_nothing u =
    not (is_some u.capacity_bytes) && (not (is_some u.used_bytes) && not (is_some u.state))

-- `expected && *expected != generation`
abbrev pub is_mismatch : Option ℕ → ℕ → Bool
is_mismatch none n = false
is_mismatch (some m) n = not (m == n)

abbrev pub updated_store : StoreUpdate → StoreInfo → StoreInfo
updated_store u s = record s {
  capacity_bytes = or_old u.capacity_bytes s.capacity_bytes;
  used_bytes = or_old u.used_bytes s.used_bytes;
  state = or_old u.state s.state;
  generation = suc s.generation;
}

unfoldable pub update_store : StoreUpdate → Action StoreRegistry StoreInfo
update_store u = do
  check λ r. validate_store_id u.id
  current ← check (lookup_store u.id)
  refuse_if (λ r. changes_nothing u) invalid_argument
  refuse_if (λ r. is_mismatch u.expected_generation current.generation) busy
  refuse_if (λ r. current.generation == u64_mod - 1) busy
  check λ r. validate_store_fields (updated_store u current)
  modify (put_store u.id (updated_store u current))
  pure (updated_store u current)

unfoldable pub update_heartbeat : ℕ → ℤ → Action StoreRegistry StoreInfo
update_heartbeat id ms = do
  check λ r. validate_store_id id
  refuse_if (λ r. is_negative ms) invalid_argument
  current ← check (lookup_store id)
  modify (put_store id (record current { last_heartbeat_ms = ms }))
  pure (record current { last_heartbeat_ms = ms })

unfoldable pub drop_store : ℕ → StoreAddress → StoreRegistry → StoreRegistry
drop_store id address r = record {
  stores = erase id r.stores;
  address_index = erase (address_key address) r.address_index;
}

unfoldable pub remove_store : ℕ → Action StoreRegistry ⊤
remove_store id = do
  check λ r. validate_store_id id
  current ← check (lookup_store id)
  modify (drop_store id current.address)

unfoldable pub get_store : ℕ → StoreRegistry → Result StoreInfo
get_store id r = Status.◌>>◌ (validate_store_id id) (lookup_store id r)

unfoldable pub get_store_by_address : StoreAddress → StoreRegistry → Result StoreInfo
get_store_by_address a r =
    Status.◌>>◌ (validate_address a) (elim (find (address_key a) r.address_index) [
      | none ↦ err not_found
      | some id ↦ elim (find id r.stores) [ none ↦ err internal_error | some s ↦ ok s ]
    ])

abbrev pub list_stores : StoreRegistry → List StoreInfo
list_stores r = values r.stores

-- the loop of `ListRunningStores`
unfoldable pub running_stores : List StoreInfo → List StoreInfo
running_stores [] = []
running_stores (s ∷ ss) =
    let rest = running_stores ss in
    if store_state_eq s.state StoreState.running then s ∷ rest else rest

abbrev pub list_running_stores : StoreRegistry → List StoreInfo
unfolding running_stores
list_running_stores r = running_stores (list_stores r)

abbrev pub export_persistent : StoreRegistry → List PersistentStoreInfo
export_persistent r = map to_persistent (list_stores r)

-- the loop of `RestorePersistent`
unfoldable pub restore_from : List PersistentStoreInfo → Action StoreRegistry ⊤
restore_from [] = pure tt
restore_from (p ∷ ps) = do
  check λ r. validate_store_fields (from_persistent p)
  check (refuse_known (from_persistent p))
  modify (add_store (from_persistent p))
  restore_from ps

-- the members are replaced only where the loop has ended well
unfoldable pub restore_persistent : List PersistentStoreInfo → Action StoreRegistry ⊤
restore_persistent ps r =
    let (status, candidate) = restore_from ps empty_registry in
    elim status [ ok _ ↦ (ok tt, candidate) | err e ↦ (err e, r) ]
