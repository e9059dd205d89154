-- ===== src/Store/Registry/Index.antt =====
-- The two maps of a `StoreRegistry` describe the same stores, whatever is called.
use cqupt_block_storage.Base.{
  ℕ, ◌≡◌, refl, ◌==◌, List, [], ◌∷◌, none, some, ◌↔◌, inl, inr, arith, Bool-cases, list_eq,
  list_eq_iff, nat_key, bytes_key, find, find-insert, find-erase,
}
use cqupt_block_storage.Base.Int.{ℤ}
use cqupt_block_storage.Common.Status.{ok}
use cqupt_block_storage.Store.Types.{StoreState, StoreInfo, StoreUpdate, PersistentStoreInfo}
use cqupt_block_storage.Store.Address.{address_key}
use cqupt_block_storage.Store.Registry.{
  StoreRegistry, empty_registry, validate_store_fields, add_store, put_store, drop_store,
  refuse_known, lookup_store, register_store, update_store, update_heartbeat, remove_store,
  updated_store, restore_from, restore_persistent, from_persistent,
}

-- A store is kept under its id with fields that are in order, its address leads to it, and an
-- address of the index is the address of the store that it leads to.
pub record IsIndexed (r : StoreRegistry) : Type 0 where
  pub named :
      (id : ℕ) (s : StoreInfo)
      → find id r.stores ≡ some s
      → (s.id ≡ id) × (validate_store_fields s ≡ ok tt)
  pub listed :
      (id : ℕ) (s : StoreInfo)
      → find id r.stores ≡ some s
      → find (address_key s.address) r.address_index ≡ some id
  pub stored :
      (k : List ℕ) (id : ℕ)
      → find k r.address_index ≡ some id
      → (s : StoreInfo) × (find id r.stores ≡ some s) × (address_key s.address ≡ k)

pub empty_registry-IsIndexed : IsIndexed empty_registry
unfolding find
empty_registry-IsIndexed = record {
  named = λ id s h. cc;
  listed = λ id s h. cc;
  stored = λ k id h. cc;
}

-- A new store under a new address.
module _ (s : StoreInfo) (r : StoreRegistry) (v : IsIndexed r)
    (fields : validate_store_fields s ≡ ok tt) (new_id : find s.id r.stores ≡ none)
    (new_key : find (address_key s.address) r.address_index ≡ none) where
  add_store-stored :
      (k : List ℕ) (id : ℕ)
      → find k (add_store s r).address_index ≡ some id
      → (t : StoreInfo) × (find id (add_store s r).stores ≡ some t) × (address_key t.address ≡ k)
  unfolding add_store
  add_store-stored k id h = elim (Bool-cases (list_eq (address_key s.address) k)) [
    | inl e ↦ (
      s,
      ground (
        arith,
        e,
        find-insert k (address_key s.address) s.id r.address_index,
        find-insert id s.id s r.stores,
      ),
      (list_eq_iff (address_key s.address) k).0 e,
    )
    | inr e ↦
        let old : find k r.address_index ≡ some id =
          ground (arith, e, h, find-insert k (address_key s.address) s.id r.address_index) in
        let (t, found, key) = v.stored k id old in
        (t, ground (arith, find-insert id s.id s r.stores, new_id, found), key)
  ]

  add_store-IsIndexed : IsIndexed (add_store s r)
  unfolding add_store
  add_store-IsIndexed = record {
    named = λ j t h. ground (arith, find-insert j s.id s r.stores, v.named j t, h, fields);
    listed = λ j t h. ground (
      arith,
      h,
      new_key,
      find-insert j s.id s r.stores,
      find-insert (address_key t.address) (address_key s.address) s.id r.address_index,
      list_eq_iff (address_key s.address) (address_key t.address),
      v.listed j t,
    );
    stored = add_store-stored;
  }

-- A change that leaves the id and the address alone.
put_store-IsIndexed :
    (id : ℕ) (old s : StoreInfo) (r : StoreRegistry)
    → IsIndexed r
    → find id r.stores ≡ some old
    → s.id ≡ id
    → s.address ≡ old.address
    → validate_store_fields s ≡ ok tt
    → IsIndexed (put_store id s r)
unfolding put_store
put_store-IsIndexed id old s r v found same address fields = record {
  named = λ j t h. ground (arith, find-insert j id s r.stores, v.named j t, h, fields);
  listed = λ j t h.
      ground (arith, h, find-insert j id s r.stores, v.listed j t, v.listed id old, address);
  stored = λ k j h.
      let (t, at_j, key) = v.stored k j h in
      elim (Bool-cases (id == j)) [
        | inl e ↦ (
          s,
          ground (arith, e, find-insert j id s r.stores),
          ground (arith, e, at_j, found, key, address),
        )
        | inr e ↦ (t, ground (arith, e, find-insert j id s r.stores, at_j), key)
      ];
}

drop_store-IsIndexed :
    (id : ℕ) (old : StoreInfo) (r : StoreRegistry)
    → IsIndexed r
    → find id r.stores ≡ some old
    → IsIndexed (drop_store id old.address r)
unfolding drop_store
drop_store-IsIndexed id old r v found = record {
  named = λ j t h. ground (arith, h, find-erase j id r.stores, v.named j t);
  listed = λ j t h. ground (
    arith,
    h,
    find-erase j id r.stores,
    find-erase (address_key t.address) (address_key old.address) r.address_index,
    list_eq_iff (address_key old.address) (address_key t.address),
    v.listed j t,
    v.listed id old,
  );
  stored = λ k j h.
      let kept : find k r.address_index ≡ some j =
        ground (arith, h, find-erase k (address_key old.address) r.address_index) in
      let (t, at_j, key) = v.stored k j kept in
      (
        t,
        ground (
          arith,
          at_j,
          found,
          key,
          h,
          find-erase j id r.stores,
          find-erase k (address_key old.address) r.address_index,
          list_eq_iff (address_key old.address) k,
        ),
        key,
      );
}

-- What the tests of a new id and a new address establish.
refuse_known-new :
    (s : StoreInfo) (r : StoreRegistry)
    → refuse_known s r ≡ ok tt
    → (find s.id r.stores ≡ none) × (find (address_key s.address) r.address_index ≡ none)
unfolding refuse_known
refuse_known-new s r h = ground (arith, h)

lookup_store-found :
    (id : ℕ) (s : StoreInfo) (r : StoreRegistry)
    → lookup_store id r ≡ ok s
    → find id r.stores ≡ some s
unfolding lookup_store
lookup_store-found id s r h = ground (arith, h)

-- The heartbeat is none of the fields that are validated.
same_fields :
    (s : StoreInfo) (ms : ℤ)
    → validate_store_fields s ≡ ok tt
    → validate_store_fields (record s { last_heartbeat_ms = ms }) ≡ ok tt
unfolding validate_store_fields
same_fields s ms h = h

-- The invariant, kept shut for the proofs about methods.
pub Indexed : StoreRegistry → Type 0
Indexed r = IsIndexed r

pub Indexed-IsIndexed : (r : StoreRegistry) → Indexed r ↔ IsIndexed r
unfolding Indexed
Indexed-IsIndexed r = (λ h. h, λ h. h)

add_store-Indexed :
    (s : StoreInfo) (r : StoreRegistry)
    → Indexed r
    → validate_store_fields s ≡ ok tt
    → refuse_known s r ≡ ok tt
    → Indexed (add_store s r)
unfolding Indexed
add_store-Indexed s r v f k =
    let known = refuse_known-new s r k in add_store-IsIndexed s r v f known.0 known.1

update-Indexed :
    (u : StoreUpdate) (old : StoreInfo) (r : StoreRegistry)
    → Indexed r
    → lookup_store u.id r ≡ ok old
    → validate_store_fields (updated_store u old) ≡ ok tt
    → Indexed (put_store u.id (updated_store u old) r)
unfolding Indexed
update-Indexed u old r v h f =
    let at_id = lookup_store-found u.id old r h in
    put_store-IsIndexed u.id old (updated_store u old) r v at_id (v.named u.id old at_id).0 refl f

heartbeat-Indexed :
    (id : ℕ) (ms : ℤ) (old : StoreInfo) (r : StoreRegistry)
    → Indexed r
    → lookup_store id r ≡ ok old
    → Indexed (put_store id (record old { last_heartbeat_ms = ms }) r)
unfolding Indexed
heartbeat-Indexed id ms old r v h =
    let known = v.named id old (lookup_store-found id old r h) in
    put_store-IsIndexed id old (record old { last_heartbeat_ms = ms }) r v
      (lookup_store-found id old r h) known.0 refl (same_fields old ms known.1)

drop_store-Indexed :
    (id : ℕ) (old : StoreInfo) (r : StoreRegistry)
    → Indexed r
    → lookup_store id r ≡ ok old
    → Indexed (drop_store id old.address r)
unfolding Indexed
drop_store-Indexed id old r v h = drop_store-IsIndexed id old r v (lookup_store-found id old r h)

register_store-Indexed :
    (s : StoreInfo) (r : StoreRegistry) → Indexed r → Indexed (register_store s r).1
unfolding register_store
register_store-Indexed s r v =
    ground (arith, add_store-Indexed (record s { state = StoreState.running; generation = 1 }) r)

update_store-Indexed :
    (u : StoreUpdate) (r : StoreRegistry) → Indexed r → Indexed (update_store u r).1
unfolding update_store
update_store-Indexed u r v = grind (arith, update-Indexed)

update_heartbeat-Indexed :
    (id : ℕ) (ms : ℤ) (r : StoreRegistry) → Indexed r → Indexed (update_heartbeat id ms r).1
unfolding update_heartbeat
update_heartbeat-Indexed id ms r v = grind (arith, heartbeat-Indexed)

remove_store-Indexed : (id : ℕ) (r : StoreRegistry) → Indexed r → Indexed (remove_store id r).1
unfolding remove_store
remove_store-Indexed id r v = grind (arith, drop_store-Indexed)

restore_from-Indexed :
    (ps : List PersistentStoreInfo) (r : StoreRegistry) → Indexed r → Indexed (restore_from ps r).1
unfolding restore_from
restore_from-Indexed [] r v = v
restore_from-Indexed (p ∷ ps) r v = ground (
  arith,
  add_store-Indexed (from_persistent p) r,
  restore_from-Indexed ps (add_store (from_persistent p) r),
)

empty_registry-Indexed : Indexed empty_registry
unfolding Indexed
empty_registry-Indexed = empty_registry-IsIndexed

restore_persistent-Indexed :
    (ps : List PersistentStoreInfo) (r : StoreRegistry)
    → Indexed r
    → Indexed (restore_persistent ps r).1
unfolding restore_persistent
restore_persistent-Indexed ps r v =
    ground (arith, restore_from-Indexed ps empty_registry empty_registry-Indexed)

-- One call of a method, with its arguments.
pub data Call : Type 0 where
  register : StoreInfo → Call
  update : StoreUpdate → Call
  heartbeat : ℕ → ℤ → Call
  remove : ℕ → Call
  restore : List PersistentStoreInfo → Call

-- The registry after a call.
unfoldable pub after : Call → StoreRegistry → StoreRegistry
after (Call.register s) r = (register_store s r).1
after (Call.update u) r = (update_store u r).1
after (Call.heartbeat id ms) r = (update_heartbeat id ms r).1
after (Call.remove id) r = (remove_store id r).1
after (Call.restore ps) r = (restore_persistent ps r).1

unfoldable pub history : List Call → StoreRegistry → StoreRegistry
history [] r = r
history (c ∷ cs) r = history cs (after c r)

after-Indexed : (c : Call) (r : StoreRegistry) → Indexed r → Indexed (after c r)
unfolding after
after-Indexed (Call.register s) r v = register_store-Indexed s r v
after-Indexed (Call.update u) r v = update_store-Indexed u r v
after-Indexed (Call.heartbeat id ms) r v = update_heartbeat-Indexed id ms r v
after-Indexed (Call.remove id) r v = remove_store-Indexed id r v
after-Indexed (Call.restore ps) r v = restore_persistent-Indexed ps r v

-- From a registry whose two maps agree, they agree after any sequence of calls that register,
-- update, remove or restore stores or record a heartbeat, whatever each returns: each store stands
-- under its own id, has valid fields and is listed under the key of its address, and each key that
-- is listed is that of the address of the store under the listed id.
pub history-IsIndexed :
    (cs : List Call) (r : StoreRegistry) → IsIndexed r → IsIndexed (history cs r)
unfolding history
history-IsIndexed [] r v = v
history-IsIndexed (c ∷ cs) r v =
    history-IsIndexed cs (after c r)
      ((Indexed-IsIndexed (after c r)).0 (after-Indexed c r ((Indexed-IsIndexed r).1 v)))
