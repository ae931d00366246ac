-- ===== src/Parser/Known.antt =====
-- An entry that names a type that is known already (libdwarfparser/dwarfparser.cpp).
use libdwarfparser.Prelude.{ℕ, ◌≡◌, refl, String, true, some, none, nat_eq, string_eq}
use libdwarfparser.Outcome.{ok}
use libdwarfparser.Map.{find}
use libdwarfparser.Ids
use libdwarfparser.Symbols.{Symbol, Pointer}
use libdwarfparser.Manager.{SymbolManager, continue}
use libdwarfparser.Manager.Register.{add_alternative_id}
use libdwarfparser.Manager.Lookup.{find_symbol_by_id}
use libdwarfparser.Manager.Find.{IsIndexed}
use libdwarfparser.Manager.Aliases.{find-add_alternative_id}
use libdwarfparser.Parser.{Parser, Die, Tag, dlv_ok, get_die_name, get_die_offset}
use libdwarfparser.Parser.Init.{is_typedef, known_again, init_symbol_from_die}

-- What is left behind where the symbol `q` becomes known under the entry at `offset`.
abbrev pub aliased : Parser → Symbol → ℕ → SymbolManager → SymbolManager
aliased p s offset m =
    let (i, ids) = Ids.get_id m.ids (offset, p.file_id) in
    (add_alternative_id s.id i (record m { ids = ids })).1

known_again_lem :
    (p : Parser) (d : Die) (q : Pointer) (m : SymbolManager) (s : Symbol) (offset : ℕ)
    → get_die_offset p d ≡ ok offset
    → find m.heap.cells q ≡ some s
    → known_again p d q m ≡ (ok q, aliased p s offset m)
unfolding known_again
known_again_lem p d q m s offset placed at = rw (placed, at) refl

known_typedef :
    (p : Parser) (d : Die) (parent q : Pointer) (name : String) (m : SymbolManager) (s : Symbol)
    (offset : ℕ)
    → d.tag ≡ dlv_ok Tag.typedef
    → get_die_name d ≡ ok name
    → get_die_offset p d ≡ ok offset
    → find m.ref_base_type_name_map name ≡ some q
    → find m.heap.cells q ≡ some s
    → is_typedef s.kind ≡ true
    → init_symbol_from_die p d parent m ≡ (ok q, aliased p s offset m)
unfolding init_symbol_from_die
known_typedef p d parent q name m s offset tagged named placed known at cast =
    rw (tagged, named, continue, known, at, cast) (known_again_lem p d q m s offset placed at)

-- In a consistent index, where a typedef of the name is known and is entered under its identifier,
-- an entry of a typedef of that name, under whose identifier nothing is entered, makes no object
-- and changes none: it gives the one that is known, to which the identifier of the entry leads from
-- then on.
pub init_symbol_from_die-known :
    (p : Parser) (d : Die) (parent q : Pointer) (name : String) (m : SymbolManager) (s : Symbol)
    (offset : ℕ)
    → d.tag ≡ dlv_ok Tag.typedef
    → get_die_name d ≡ ok name
    → get_die_offset p d ≡ ok offset
    → find m.ref_base_type_name_map name ≡ some q
    → find m.heap.cells q ≡ some s
    → is_typedef s.kind ≡ true
    → IsIndexed m
    → find m.symbol_id_map s.id ≡ some q
    → find m.symbol_id_map (Ids.get_id m.ids (offset, p.file_id)).0 ≡ none
    → ((init_symbol_from_die p d parent m).0 ≡ ok q)
      × (find_symbol_by_id
            (Ids.get_id m.ids (offset, p.file_id)).0
            (init_symbol_from_die p d parent m).1
          ≡ (ok q, (init_symbol_from_die p d parent m).1))
      × ((init_symbol_from_die p d parent m).1.heap ≡ m.heap)
unfolding add_alternative_id
init_symbol_from_die-known p d parent q name m s offset tagged named placed known at cast v entered
      free =
    let (i, ids) = Ids.get_id m.ids (offset, p.file_id) in
    rw (known_typedef p d parent q name m s offset tagged named placed known at cast)
      (refl, find-add_alternative_id (record m { ids = ids }) s.id i q v entered free, refl)
