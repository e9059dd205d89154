-- ===== src/Store/Placement/Selection.antt =====
-- The stores that a placement chooses.
use cqupt_block_storage.Base.{
  ℕ, ◌+◌, ◌-◌, ◌≤◌, ◌≡◌, ◌≢◌, refl, sym, subst, List, [], ◌∷◌, map, true, inl, inr, none, arith,
  Bool-cases, nat_key, bytes_key, find, insert, values, Memᴰ, All, All-take, Pairwise, Distinct,
  insert-Distinct, insert-All, take, length, length-take, length-map, map-All, map-Pairwise,
  Pairwise-take, leb, sort_by, sort_by-All, sort_by-Pairwise, length-sort_by,
}
use cqupt_block_storage.Common.Status.{Result-cases, ok}
use cqupt_block_storage.Store.Types.{StoreState, StoreInfo, store_state_eq}
use cqupt_block_storage.Store.Address.{address_key}
use cqupt_block_storage.Store.Placement.{
  PlacementRequest, EligibleStore, validate_request, index_candidates, eligible_stores,
  sort_eligible, is_before, choose, select_stores,
}

-- The candidates by their ids: each id once, and each store a candidate.
record IsIndexOf (cs : List StoreInfo) (m : List (ℕ × StoreInfo)) : Type 0 where
  distinct : Distinct m
  from : All (λ p. (p.1.id ≡ p.0) × Memᴰ p.1 cs) m

index_candidates-IsIndexOf :
    (cs ss : List StoreInfo) (m by_id : List (ℕ × StoreInfo)) (by_address : List (List ℕ × ℕ))
    → All (λ s. Memᴰ s cs) ss
    → IsIndexOf cs by_id
    → index_candidates by_id by_address ss ≡ ok m
    → IsIndexOf cs m
unfolding index_candidates
index_candidates-IsIndexOf cs [] m by_id by_address h v e =
    let same : by_id ≡ m = ground (arith, e) in subst (IsIndexOf cs) same v
index_candidates-IsIndexOf cs (s ∷ ss) m by_id by_address (there, h) v e =
    index_candidates-IsIndexOf cs ss m (insert s.id s by_id)
      (insert (address_key s.address) s.id by_address) h
      (record {
        distinct = insert-Distinct s.id s by_id v.distinct;
        from = insert-All (λ p. (p.1.id ≡ p.0) × Memᴰ p.1 cs) s.id s by_id (refl, there) v.from;
      })
      (ground (arith, e))

-- A candidate that runs and has room, under its id.
pub record IsPlace (cs : List StoreInfo) (required id : ℕ) : Type 0 where
  pub store : StoreInfo
  pub candidate : Memᴰ store cs
  pub named : store.id ≡ id
  pub runs : store_state_eq store.state StoreState.running ≡ true
  pub has_room : store.used_bytes + required ≤ store.capacity_bytes

abbrev IsApart : EligibleStore → EligibleStore → Type 0
IsApart a b = a.id ≢ b.id

-- no id in the rest of the index
new-All :
    (cs : List StoreInfo) (required id : ℕ) (m : List (ℕ × StoreInfo))
    → find id m ≡ none
    → All (λ p. (p.1.id ≡ p.0) × Memᴰ p.1 cs) m
    → All (λ a. id ≢ a.id) (eligible_stores required (values m))
unfolding eligible_stores find
new-All cs required id [] n h = tt
new-All cs required id ((k, s) ∷ m) n ((e, there), h) =
    let apart : id ≢ s.id = ground (arith, n, e) in
    let rest = new-All cs required id m (ground (arith, n)) h in
    elim (Bool-cases (store_state_eq s.state StoreState.running)) [
      | inl t ↦ elim (Bool-cases (leb required (s.capacity_bytes - s.used_bytes))) [
        | inl u ↦ rw (t, u) (apart, rest)
        | inr u ↦ rw (t, u) rest
      ]
      | inr t ↦ rw t rest
    ]

eligible_stores-IsPlace :
    (cs : List StoreInfo) (required : ℕ) (m : List (ℕ × StoreInfo))
    → 1 ≤ required
    → Distinct m
    → All (λ p. (p.1.id ≡ p.0) × Memᴰ p.1 cs) m
    → Pairwise IsApart (eligible_stores required (values m))
      × All (λ a. IsPlace cs required a.id) (eligible_stores required (values m))
unfolding eligible_stores
eligible_stores-IsPlace cs required [] r d h = (tt, tt)
eligible_stores-IsPlace cs required ((k, s) ∷ m) r (new, d) ((e, there), h) =
    let (apart, places) = eligible_stores-IsPlace cs required m r d h in
    elim (Bool-cases (store_state_eq s.state StoreState.running)) [
      | inl t ↦ elim (Bool-cases (leb required (s.capacity_bytes - s.used_bytes))) [
        | inl u ↦
            let place : IsPlace cs required s.id = record {
              store = s;
              candidate = there;
              named = refl;
              runs = t;
              has_room = ground (arith, u, r);
            } in
            let fresh : find s.id m ≡ none = rw e new in
            rw (t, u) ((new-All cs required s.id m fresh h, apart), (place, places))
        | inr u ↦ rw (t, u) (apart, places)
      ]
      | inr t ↦ rw t (apart, places)
    ]

-- What a choice among the stores of an index returns.
choose-IsPlace :
    (q : PlacementRequest) (cs : List StoreInfo) (m : List (ℕ × StoreInfo)) (ids : List ℕ)
    → 1 ≤ q.required_capacity_bytes
    → IsIndexOf cs m
    → choose q (values m) ≡ ok ids
    → (length ids ≡ q.replica_count)
      × All (IsPlace cs q.required_capacity_bytes) ids
      × Pairwise (λ a b. a ≢ b) ids
unfolding choose sort_eligible
choose-IsPlace q cs m ids r v e =
    let eligible = eligible_stores q.required_capacity_bytes (values m) in
    let sorted = sort_by is_before eligible in
    let chosen = take q.replica_count sorted in
    let (apart, places) =
      eligible_stores-IsPlace cs q.required_capacity_bytes m r v.distinct v.from in
    let same : map (λ a. a.id) chosen ≡ ids = ground (arith, e) in
    let enough : q.replica_count ≤ length eligible = ground (arith, e) in
    subst
      (λ xs.
        (length xs ≡ q.replica_count)
        × All (IsPlace cs q.required_capacity_bytes) xs
        × Pairwise (λ a b. a ≢ b) xs)
      same
      (
        ground (
          arith,
          enough,
          length-map (λ (a : EligibleStore). a.id) chosen,
          length-take q.replica_count sorted,
          length-sort_by is_before eligible,
        ),
        map-All (λ (a : EligibleStore). a.id) (IsPlace cs q.required_capacity_bytes) chosen
            (All-take (λ a. IsPlace cs q.required_capacity_bytes a.id) q.replica_count sorted
              (sort_by-All is_before (λ a. IsPlace cs q.required_capacity_bytes a.id) eligible
                places)),
        map-Pairwise (λ (a : EligibleStore). a.id) (λ a b. a ≢ b) chosen
            (Pairwise-take IsApart q.replica_count sorted
              (sort_by-Pairwise is_before IsApart (λ a b h e. h (sym e)) eligible apart)),
      )

candidates-All :
    (cs ds : List StoreInfo) → ((s : StoreInfo) → Memᴰ s ds → Memᴰ s cs) → All (λ s. Memᴰ s cs) ds
candidates-All cs [] h = tt
candidates-All cs (d ∷ ds) h =
    (h d (Memᴰ.head refl), candidates-All cs ds (λ s m. h s (Memᴰ.tail m)))

-- Where `SelectStores` succeeds, it returns as many ids as replicas were asked for, no two of them
-- equal, and each is the id of a candidate that runs and whose used bytes and the required bytes
-- together are within its capacity.
pub select_stores-IsPlace :
    (q : PlacementRequest) (cs : List StoreInfo) (ids : List ℕ)
    → select_stores q cs ≡ ok ids
    → (length ids ≡ q.replica_count)
      × All (IsPlace cs q.required_capacity_bytes) ids
      × Pairwise (λ a b. a ≢ b) ids
unfolding select_stores validate_request
select_stores-IsPlace q cs ids e = elim (Result-cases (index_candidates [] [] cs)) [
  | inl (m, f) ↦
      choose-IsPlace q cs m ids (ground (arith, e))
        (index_candidates-IsIndexOf cs cs m [] [] (candidates-All cs cs (λ s h. h))
          (record { distinct = tt; from = tt }) f)
        (ground (arith, e, f))
  | inr (code, f) ↦ absurd (ground (arith, e, f))
]
