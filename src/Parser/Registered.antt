-- ===== src/Parser/Registered.antt =====
-- The constructor of `Symbol`: the new object is the one that its identifier leads to.
use libdwarfparser.Prelude.{
  suc, ◌%◌, ℕ, ◌≡◌, refl, String, none, some, [], ◌∷◌, ◌++◌, ◌==◌, if◌then◌else◌, arith, nat_eq,
  nat_beq_iff, string_eq, All,
}
use libdwarfparser.Outcome.{ok}
use libdwarfparser.Map.{Map, find, assign, find-assign, find-assign_own, All-assign}
use libdwarfparser.Ids
use libdwarfparser.Ids.{Ids}
use libdwarfparser.Symbols.{Symbol, Kind, Pointer}
use libdwarfparser.Manager.{SymbolManager, Heap}
use libdwarfparser.Manager.Lookup.{find_symbol_by_id}
use libdwarfparser.Manager.Find.{Carries, IsIndexed, resolve, find_symbol_by_id-resolved}
use libdwarfparser.Parser.{Parser, Die, get_die_byte_size, get_die_offset}
use libdwarfparser.Parser.Objects.{new_symbol, u32}

-- An object that is added where none was leaves the others as they are.
Carries-assign :
    (h : Heap) (q next : Pointer) (s : Symbol) (entry : ℕ × Pointer)
    → find h.cells q ≡ none
    → Carries h entry
    → Carries (record { cells = assign h.cells q s; next = next }) entry
Carries-assign h q next s (i, p) free (t, at, same) =
    (t, ground (arith, find-assign h.cells q p s, nat_beq_iff q p), same)

All-Carries-assign :
    (h : Heap) (q next : Pointer) (s : Symbol) (entries : Map ℕ Pointer)
    → find h.cells q ≡ none
    → All (Carries h) entries
    → All (Carries (record { cells = assign h.cells q s; next = next })) entries
All-Carries-assign h q next s [] free v = tt
All-Carries-assign h q next s (entry ∷ entries) free (v, vs) =
    (Carries-assign h q next s entry free v, All-Carries-assign h q next s entries free vs)

-- What the constructor of `Symbol` leaves behind.
abbrev pub registered : SymbolManager → Ids → Symbol → SymbolManager
registered m ids s = record m {
  heap = record { cells = assign m.heap.cells m.heap.next s; next = suc m.heap.next };
  ids = ids;
  symbol_name_map =
      if s.name == "" then m.symbol_name_map else m.symbol_name_map ++ (s.name, m.heap.next) ∷ [];
  symbol_id_map = assign m.symbol_id_map s.id m.heap.next;
}

abbrev pub symbol_of : Parser → String → Kind → SymbolManager → ℕ → ℕ → Symbol
symbol_of p name kind m size offset = record {
  name = name;
  byte_size = size % u32;
  id = (Ids.get_id m.ids (offset, p.file_id)).0;
  kind = kind;
}

pub new_symbol_lem :
    (p : Parser) (d : Die) (name : String) (kind : Kind) (m : SymbolManager) (size offset : ℕ)
    → get_die_byte_size p d ≡ ok size
    → get_die_offset p d ≡ ok offset
    → new_symbol p d name kind m ≡ (
      ok m.heap.next,
      registered m (Ids.get_id m.ids (offset, p.file_id)).1 (symbol_of p name kind m size offset),
    )
unfolding new_symbol
new_symbol_lem p d name kind m size offset sized placed =
    rw
      (
        sized,
        placed,
        find-assign_own m.heap.cells m.heap.next (symbol_of p name kind m size offset),
      )
      refl

registered-IsIndexed :
    (m : SymbolManager) (ids : Ids) (s : Symbol)
    → IsIndexed m
    → find m.heap.cells m.heap.next ≡ none
    → IsIndexed (registered m ids s)
registered-IsIndexed m ids s v free =
    All-assign (Carries (registered m ids s).heap) m.symbol_id_map s.id m.heap.next
      (All-Carries-assign m.heap m.heap.next (suc m.heap.next) s m.symbol_id_map free v)
      (s, find-assign_own m.heap.cells m.heap.next s, refl)

resolve-registered :
    (m : SymbolManager) (ids : Ids) (s : Symbol)
    → resolve (registered m ids s) s.id ≡ some m.heap.next
unfolding resolve
resolve-registered m ids s = rw (find-assign_own m.symbol_id_map s.id m.heap.next, resolve) refl

-- Where the entry has a size and an offset and the next object is a new one, the constructor of
-- `Symbol` returns a new object, keeps a consistent index consistent, and from then on a look-up by
-- the identifier of the entry gives that object.
pub new_symbol-IsIndexed :
    (p : Parser) (d : Die) (name : String) (kind : Kind) (m : SymbolManager) (size offset : ℕ)
    → get_die_byte_size p d ≡ ok size
    → get_die_offset p d ≡ ok offset
    → IsIndexed m
    → find m.heap.cells m.heap.next ≡ none
    → ((new_symbol p d name kind m).0 ≡ ok m.heap.next)
      × IsIndexed (new_symbol p d name kind m).1
      × (find_symbol_by_id (Ids.get_id m.ids (offset, p.file_id)).0 (new_symbol p d name kind m).1
          ≡ (ok m.heap.next, (new_symbol p d name kind m).1))
new_symbol-IsIndexed p d name kind m size offset sized placed v free =
    let s = symbol_of p name kind m size offset in
    let ids = (Ids.get_id m.ids (offset, p.file_id)).1 in
    let w = registered-IsIndexed m ids s v free in
    rw (new_symbol_lem p d name kind m size offset sized placed) (
      refl,
      w,
      find_symbol_by_id-resolved (registered m ids s) s.id m.heap.next w
          (resolve-registered m ids s),
    )
