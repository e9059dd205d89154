-- ===== src/Store/Registry/Lookup.antt =====
-- Looking a store up by its address, in a registry whose two maps agree.
use cqupt_block_storage.Base.{
  ℕ, ◌≡◌, ◌≢◌, refl, ap, some, inl, inr, arith, nat_key, bytes_key, find, Option-cases,
}
use cqupt_block_storage.Common.Status.{Result, ok, err, not_found}
use cqupt_block_storage.Store.Types.{StoreAddress, StoreInfo}
use cqupt_block_storage.Store.Address.{address_key}
use cqupt_block_storage.Store.Address.Injective.{address_key_inj}
use cqupt_block_storage.Store.Registry.{StoreRegistry, validate_address, get_store_by_address}
use cqupt_block_storage.Store.Registry.Index.{IsIndexed}

-- What an answer about an address says of the stores.
abbrev pub Locates : StoreRegistry → StoreAddress → Result StoreInfo → Type 0
Locates r a (ok s) = (find s.id r.stores ≡ some s) × (s.address ≡ a)
Locates r a (err e) =
    (e ≡ not_found) × ((id : ℕ) (s : StoreInfo) → find id r.stores ≡ some s → s.address ≢ a)

-- In a registry whose two maps agree, `GetStoreByAddress` of a valid address returns a store that
-- stands under its id and has that address, or answers that none was found, and then no store has
-- that address; it never finds the index inconsistent.
pub get_store_by_address-Locates :
    (r : StoreRegistry) (a : StoreAddress)
    → IsIndexed r
    → validate_address a ≡ ok tt
    → Locates r a (get_store_by_address a r)
unfolding get_store_by_address
get_store_by_address-Locates r a v h = elim (Option-cases (find (address_key a) r.address_index)) [
  | inl e ↦
      let absent : get_store_by_address a r ≡ err not_found = ground (arith, h, e) in
      rw absent
        (refl, λ id s found same. ground (arith, e, v.listed id s found, ap address_key same))
  | inr (id, e) ↦
      let (s, found, key) = v.stored (address_key a) id e in
      let present : get_store_by_address a r ≡ ok s = ground (arith, h, e, found) in
      rw present (ground (arith, found, v.named id s found), address_key_inj s.address a key)
]
