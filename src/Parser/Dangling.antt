-- ===== src/Parser/Dangling.antt =====
-- An exception that leaves the body of a constructor (libdwarfparser/symbol.cpp,
-- libdwarfparser/basetype.cpp).
use libdwarfparser.Prelude.{ℕ, ◌≡◌, refl, String, true, some, none, arith, nat_eq, string_eq}
use libdwarfparser.Outcome.{ok, fail, undefined, dwarf_exception}
use libdwarfparser.Map.{find, assign, erase, find-erase, find-assign_own}
use libdwarfparser.Ids
use libdwarfparser.Symbols.{TypeKind, base_type}
use libdwarfparser.Manager.{SymbolManager}
use libdwarfparser.Manager.Destroy.{destructor, destructor-dangling}
use libdwarfparser.Parser.{
  Parser, Die, die_has_attr, get_die_offset, get_die_byte_size, get_die_attribute_number,
}
use libdwarfparser.Parser.Objects.{new_base_type, at_encoding}
use libdwarfparser.Parser.Registered.{new_symbol_lem, registered, symbol_of}

-- What the constructor of `BaseType` leaves behind where an exception leaves its body.
abbrev freed : Parser → Die → String → TypeKind → SymbolManager → ℕ → ℕ → SymbolManager
freed p d name t m size offset =
    let m' =
      registered m (Ids.get_id m.ids (offset, p.file_id)).1
        (symbol_of p name (base_type 0 t) m size offset) in
    record m' { heap = record m'.heap { cells = erase m'.heap.cells m.heap.next } }

new_base_type-freed :
    (p : Parser) (d : Die) (name reason : String) (t : TypeKind) (m : SymbolManager)
    (size offset : ℕ)
    → get_die_byte_size p d ≡ ok size
    → get_die_offset p d ≡ ok offset
    → die_has_attr d at_encoding ≡ true
    → get_die_attribute_number p d at_encoding ≡ fail (dwarf_exception reason)
    → new_base_type p d name t m ≡ (fail (dwarf_exception reason), freed p d name t m size offset)
unfolding new_base_type
new_base_type-freed p d name reason t m size offset sized placed encoded thrown =
    rw (new_symbol_lem p d name (base_type 0 t) m size offset sized placed, encoded, thrown) refl

-- Where an entry has a size and an offset, and the read of its encoding throws, the constructor of
-- `BaseType` throws too and frees the object, to which the identifier of the entry leads from then
-- on: the destructor of the manager that it leaves behind ends in undefined behaviour.
pub new_base_type-dangling :
    (p : Parser) (d : Die) (name reason : String) (t : TypeKind) (m : SymbolManager)
    (size offset : ℕ)
    → get_die_byte_size p d ≡ ok size
    → get_die_offset p d ≡ ok offset
    → die_has_attr d at_encoding ≡ true
    → get_die_attribute_number p d at_encoding ≡ fail (dwarf_exception reason)
    → ((new_base_type p d name t m).0 ≡ fail (dwarf_exception reason))
      × (find (new_base_type p d name t m).1.symbol_id_map (Ids.get_id m.ids (offset, p.file_id)).0
          ≡ some m.heap.next)
      × (find (new_base_type p d name t m).1.heap.cells m.heap.next ≡ none)
      × ((destructor (new_base_type p d name t m).1).0 ≡ fail undefined)
new_base_type-dangling p d name reason t m size offset sized placed encoded thrown =
    let i = (Ids.get_id m.ids (offset, p.file_id)).0 in
    let m' = freed p d name t m size offset in
    let entered : find m'.symbol_id_map i ≡ some m.heap.next =
      find-assign_own m.symbol_id_map i m.heap.next in
    let gone : find m'.heap.cells m.heap.next ≡ none = ground (
      arith,
      find-erase (assign m.heap.cells m.heap.next (symbol_of p name (base_type 0 t) m size offset))
          m.heap.next m.heap.next,
    ) in
    rw (new_base_type-freed p d name reason t m size offset sized placed encoded thrown)
      (refl, entered, gone, destructor-dangling m' i m.heap.next entered gone)
