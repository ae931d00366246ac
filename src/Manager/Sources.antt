-- ===== src/Manager/Sources.antt =====
-- What the look-ups by name and by type promise, and what `findArrayByTypeID` gives instead.
use libdwarfparser.Prelude.{
  ℕ, ◌≡◌, ◌≢◌, refl, String, Bool, false, some, List, [], ◌∷◌, ◌==◌, arith, if◌then◌else◌, nat_eq,
}
use libdwarfparser.Outcome.{ok}
use libdwarfparser.Map.{find}
use libdwarfparser.Addresses.{get_system_map_address, get_elf_symbol_address, get_function_address}
use libdwarfparser.Symbols.{Symbol, Pointer, as_array, ArrayData, Reference}
use libdwarfparser.Manager.{SymbolManager, Multimap, Method, pure, deref}
use libdwarfparser.Manager.Names.{
  try_source, enum_bit_test, system_map, modules, functions, dwarf_function, dwarf_variable,
  function_address, variable_location, get_symbol_address, find_array_by_type_id,
}

-- The first address that is not 0 among the sources asked for.
pub first_address : ℕ → List (ℕ × ℕ) → ℕ
first_address src [] = 0
first_address src ((source, address) ∷ rest) =
    let next = first_address src rest in
    if enum_bit_test src source then (if address == 0 then next else address) else next

try_source_lem :
    (m : SymbolManager) (asked : Bool) (a n : ℕ) (source next : Method ℕ)
    → source m ≡ (ok a, m)
    → next m ≡ (ok n, m)
    → try_source asked source next m ≡ (ok (if asked then (if a == 0 then n else a) else n), m)
try_source_lem m asked a n source next e e' = ground (arith, e, e')

-- `getSymbolAddress` gives the first address that is not 0 among the sources asked for, in the order
-- system map, ELF symbols, ELF functions, DWARF functions, DWARF variables, or 0 if there is none;
-- wherever the function and the variable of that name, if any, can be read.
pub get_symbol_address-first :
    (m : SymbolManager) (name : String) (src a b : ℕ)
    → function_address name m ≡ (ok a, m)
    → variable_location name m ≡ (ok b, m)
    → get_symbol_address name src m ≡ (
      ok (
          first_address src (
            (system_map, get_system_map_address m.addresses name false)
            ∷ (modules, get_elf_symbol_address m.addresses name)
            ∷ (functions, get_function_address m.addresses name)
            ∷ (dwarf_function, a)
            ∷ (dwarf_variable, b)
            ∷ [])),
      m,
    )
unfolding get_symbol_address first_address
get_symbol_address-first m name src a b f v =
    let sys = get_system_map_address m.addresses name false in
    let elf = get_elf_symbol_address m.addresses name in
    let fun = get_function_address m.addresses name in
    let n5 : Method ℕ =
      try_source (enum_bit_test src dwarf_variable) (variable_location name) (pure 0) in
    let n4 : Method ℕ = try_source (enum_bit_test src dwarf_function) (function_address name) n5 in
    let n3 : Method ℕ = try_source (enum_bit_test src functions) (pure fun) n4 in
    let n2 : Method ℕ = try_source (enum_bit_test src modules) (pure elf) n3 in
    try_source_lem m _ sys _ (pure sys) n2 refl (
      try_source_lem m _ elf _ (pure elf) n3 refl (
        try_source_lem m _ fun _ (pure fun) n4 refl (
          try_source_lem m _ a _ (function_address name) n5 f
            (try_source_lem m _ b 0 (variable_location name) (pure 0) v refl))))

-- Where the map has an array of the element type with another length, and behind it one of another
-- element type with the length that was asked for, `findArrayByTypeID` answers with the latter.
pub find_array_by_type_id-other_type :
    (m : SymbolManager) (id j length : ℕ) (p q : Pointer) (s t : Symbol) (r r' : Reference)
    (a b : ArrayData) (rest : Multimap ℕ)
    → m.array_type_map ≡ (id, p) ∷ (j, q) ∷ rest
    → find m.heap.cells p ≡ some s
    → as_array s.kind ≡ some (r, a)
    → find m.heap.cells q ≡ some t
    → as_array t.kind ≡ some (r', b)
    → a.length ≢ length
    → b.length ≡ length
    → find_array_by_type_id id length m ≡ (ok (some q), m)
unfolding find_array_by_type_id deref
find_array_by_type_id-other_type m id j length p q s t r r' a b rest map_is at_p array_p at_q
      array_q short long =
    ground (arith, map_is, at_p, array_p, at_q, array_q)
