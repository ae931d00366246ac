-- ===== src/Addresses/SystemMap.antt =====
-- The system map: which symbols a caller sees with and without `priv`.
use libdwarfparser.Prelude.{ℕ, ◌≡◌, String, true, false, none, arith, eq_iff, string_eq}
use libdwarfparser.Map.{find, find-assign}
use libdwarfparser.Addresses.{Addresses, add_sysmap_symbol, get_system_map_address}

-- For a name that is not public yet: a symbol added as private is found by callers that do not ask
-- for private symbols, and one that was not added as private is found only by those that do.
pub add_sysmap_symbol_swapped :
    (s : Addresses) (name : String) (address : ℕ)
    → find s.sys_map_symbols name ≡ none
    → (get_system_map_address (add_sysmap_symbol s name address true) name false ≡ address)
      × (get_system_map_address (add_sysmap_symbol s name address false) name false ≡ 0)
      × (get_system_map_address (add_sysmap_symbol s name address false) name true ≡ address)
unfolding add_sysmap_symbol get_system_map_address
add_sysmap_symbol_swapped s name address h = (
  ground (arith, find-assign s.sys_map_symbols name name address, eq_iff name name),
  ground arith,
  ground (arith, find-assign s.sys_map_symbols_private name name address, eq_iff name name),
)
