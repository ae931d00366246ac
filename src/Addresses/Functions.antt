-- ===== src/Addresses/Functions.antt =====
-- `addFunctionAddress`: a new name is found for every function, and the others keep theirs.
use Prim.Native.String.{◌++◌, count}
use libdwarfparser.Prelude.{
  ℕ, zero, suc, ◌<◌, ◌≡◌, ap, String, none, some, length, arith, nat_eq, string_eq, ◌==◌,
  if◌then◌else◌, Option-cases, inl, inr,
}
use libdwarfparser.Outcome.{ok}
use libdwarfparser.Map.{Map, find, assign, find-assign}
use libdwarfparser.Addresses.Underscores.{
  underscored, long_names, long_names-le, long_names-find, count-underscore,
}
use libdwarfparser.Addresses.{Addresses, free_name, add_function_address}

pub free_name_ends :
    (m : Map String ℕ) (fuel : ℕ) (name : String)
    → long_names (count name) m < fuel
    → (k : ℕ) × (free_name fuel m name ≡ ok (underscored name k))
      × (find m (underscored name k) ≡ none)
unfolding free_name underscored
free_name_ends m zero name h = absurd (omega arith)
free_name_ends m (suc fuel) name h = elim (Option-cases (find m name)) [
  | inl free ↦ (0, ground arith, free)
  | inr (v, used) ↦
      let (k, e, free) = free_name_ends m fuel (name ++ "_") (
        omega (
          arith,
          ap (λ n. long_names n m) (count-underscore name),
          long_names-find m name v used,
        )) in
      (suc k, ground (arith, e), free)
]

-- `addFunctionAddress` returns, and has stored the address under the name with some underscores
-- behind it: a name that no function had. Every other name has the address that it had.
pub add_function_address-fresh :
    (s : Addresses) (name : String) (address : ℕ)
    → (k : ℕ) × (s' : Addresses) × (add_function_address s name address ≡ ok s')
      × (find s.function_symbol_map (underscored name k) ≡ none)
      × ((j : String)
          → find s'.function_symbol_map j
            ≡ (if underscored name k == j then some address else find s.function_symbol_map j))
unfolding add_function_address
add_function_address-fresh s name address =
    let m = s.function_symbol_map in
    let (k, e, free) =
      free_name_ends m (suc (length m)) name (omega (arith, long_names-le (count name) m)) in
    let n = underscored name k in
    (
      k,
      record s { function_symbol_map = assign m n address },
      rw (e, add_function_address),
      free,
      λ j. find-assign m n j address,
    )
