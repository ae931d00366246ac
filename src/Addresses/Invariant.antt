-- ===== src/Addresses/Invariant.antt =====
-- The maps of the address component stay maps under the calls that change them
-- (libdwarfparser/symbolmanager.cpp).
use Prim.Native.String.{count}
use libdwarfparser.Prelude.{
  ℕ, suc, length, ◌≡◌, refl, String, Bool, true, false, Option, none, some, List, [], ◌∷◌, arith,
  string_eq,
}
use libdwarfparser.Outcome.{Outcome, ok, ◌>>=◌}
use libdwarfparser.Map.{assign, IsUnique, IsUnique-assign}
use libdwarfparser.OrderedMap.{IsAscending}
use libdwarfparser.Addresses.{
  Addresses, init, finish_symbol, add_symbol_address, add_function_address, add_sysmap_symbol,
  update_rev_maps,
}
use libdwarfparser.Addresses.Underscores.{underscored, long_names-le}
use libdwarfparser.Addresses.Names.{rename_symbol_ends}
use libdwarfparser.Addresses.Functions.{free_name_ends}
use libdwarfparser.Addresses.Reverse.{reverse_entries-IsAscending}

-- The calls that change the addresses.
data Call : Type 0 where
  symbol_address : String → ℕ → Bool → Call
  function_address : String → ℕ → Call
  sysmap_symbol : String → ℕ → Bool → Call
  rev_maps : Call

step : Addresses → Call → Outcome Addresses
step s (symbol_address name a replace) = do (d, s') ← add_symbol_address s name a replace; ok s'
step s (function_address name a) = add_function_address s name a
step s (sysmap_symbol name a priv) = ok (add_sysmap_symbol s name a priv)
step s rev_maps = ok (update_rev_maps s)

run : Addresses → List Call → Outcome Addresses
run s [] = ok s
run s (c ∷ cs) = do s' ← step s c; run s' cs

record IsWellFormed (s : Addresses) : Type 0 where
  pub sys_unique : IsUnique s.sys_map_symbols
  pub private_unique : IsUnique s.sys_map_symbols_private
  pub elf_unique : IsUnique s.elf_symbol_map
  pub function_unique : IsUnique s.function_symbol_map
  pub elf_ascending : IsAscending s.elf_symbol_rev_map
  pub function_ascending : IsAscending s.function_symbol_rev_map

init-IsWellFormed : IsWellFormed init
init-IsWellFormed = record {
  sys_unique = tt;
  private_unique = tt;
  elf_unique = tt;
  function_unique = tt;
  elf_ascending = tt;
  function_ascending = tt;
}

finish_symbol-IsWellFormed :
    (s : Addresses) (a : ℕ) (r : Option (String × Bool))
    → IsWellFormed s
    → IsWellFormed (finish_symbol s a r).1
unfolding finish_symbol
finish_symbol-IsWellFormed s a none v = v
finish_symbol-IsWellFormed s a (some (n, d)) v =
    ground (arith, IsUnique-assign s.elf_symbol_map n a)

-- Every address call returns, and keeps the entries of every map unique and the reverse maps
-- ascending.
step-IsWellFormed :
    (s : Addresses) (c : Call)
    → IsWellFormed s
    → (s' : Addresses) × (step s c ≡ ok s') × IsWellFormed s'
unfolding step add_symbol_address add_function_address add_sysmap_symbol update_rev_maps
step-IsWellFormed s (symbol_address name a replace) v =
    let m = s.elf_symbol_map in
    let (r, e) =
      rename_symbol_ends m a replace (suc (length m)) name false
        (omega (arith, long_names-le (count name) m)) in
    ((finish_symbol s a r).1, rw (e, add_symbol_address), finish_symbol-IsWellFormed s a r v)
step-IsWellFormed s (function_address name a) v =
    let m = s.function_symbol_map in
    let (k, e, _) =
      free_name_ends m (suc (length m)) name (omega (arith, long_names-le (count name) m)) in
    (
      record s { function_symbol_map = assign m (underscored name k) a },
      rw (e, add_function_address),
      ground (arith, IsUnique-assign m (underscored name k) a),
    )
step-IsWellFormed s (sysmap_symbol name a true) v =
    (_, refl, ground (arith, IsUnique-assign s.sys_map_symbols name a))
step-IsWellFormed s (sysmap_symbol name a false) v =
    (_, refl, ground (arith, IsUnique-assign s.sys_map_symbols_private name a))
step-IsWellFormed s rev_maps v = (
  _,
  refl,
  ground (
    arith,
    reverse_entries-IsAscending s.elf_symbol_map [] tt,
    reverse_entries-IsAscending s.function_symbol_map [] tt,
  ),
)

run-IsWellFormed :
    (s : Addresses) (cs : List Call)
    → IsWellFormed s
    → (s' : Addresses) × (run s cs ≡ ok s') × IsWellFormed s'
unfolding run
run-IsWellFormed s [] v = (s, refl, v)
run-IsWellFormed s (c ∷ cs) v =
    let (t, e, w) = step-IsWellFormed s c v in
    let (s', e', w') = run-IsWellFormed t cs w in (s', rw (e, ◌>>=◌) e', w')

-- Any of these calls on a new manager return, and leave each name of a map in one entry and the reverse maps
-- in ascending order.
run-init-IsWellFormed :
    (cs : List Call) → (s' : Addresses) × (run init cs ≡ ok s') × IsWellFormed s'
run-init-IsWellFormed cs = run-IsWellFormed init cs init-IsWellFormed
