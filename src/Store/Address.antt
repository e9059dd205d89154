-- ===== src/Store/Address.antt =====
-- `AddressKey`, the text under which an address is indexed.
pub mod Injective
use cqupt_block_storage.Base.{ℕ, zero, suc, ◌+◌, ◌/◌, ◌%◌, List, [], ◌∷◌, ◌++◌, ltb, if◌then◌else◌}
use cqupt_block_storage.Store.Types.{StoreAddress}

-- the decimal digits of a number, on fuel; `std::to_string`
unfoldable pub digits : ℕ → ℕ → List ℕ
digits zero n = []
digits (suc fuel) n =
    let rest = digits fuel (n / 10) in
    if ltb n 10 then (48 + n) ∷ [] else rest ++ (48 + n % 10) ∷ []

abbrev pub to_string : ℕ → List ℕ
unfolding digits
to_string n = digits (suc n) n

-- `host + ":" + std::to_string(port)`
unfoldable pub address_key : StoreAddress → List ℕ
unfolding digits
address_key a = a.host ++ b':' ∷ to_string a.port
