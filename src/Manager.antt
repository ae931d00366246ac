-- ===== src/Manager.antt =====
-- `SymbolManager` (libdwarfparser/symbolmanager.h): its containers, the objects that its pointers
-- lead to, and the effects of its methods. The methods are in the modules below.
pub mod Register
pub mod Lookup
pub mod Find
pub mod Aliases
pub mod Names
pub mod Sources
pub mod Destroy
pub mod Sound
pub mod Tests
use libdwarfparser.Prelude.{
  ℕ, zero, suc, ◌+◌, String, Bool, true, false, Option, none, some, List, [], ◌∷◌, ◌++◌, ◌==◌,
  if◌then◌else◌, nat_eq,
}
use libdwarfparser.Outcome.{
  is_exception, Failure, Outcome, ok, fail, undefined, assertion, require, or_fail,
}
use libdwarfparser.Map.{Map, find, assign, erase}
use libdwarfparser.Ids
use libdwarfparser.Ids.{Ids, DwarfId}
use libdwarfparser.Addresses
use libdwarfparser.Addresses.{Addresses}
use libdwarfparser.Symbols.{Symbol, Pointer}

-- `std::multimap`: entries with one key stand in the order of their insertion.
abbrev pub Multimap : Type 0 → Type 0
Multimap K = List (K × Pointer)

-- The objects that `new` has made and `delete` has not destroyed.
pub record Heap : Type 0 where
  pub cells : Map Pointer Symbol
  pub next : Pointer

pub record SymbolManager : Type 0 where
  pub heap : Heap
  pub ids : Ids
  pub addresses : Addresses
  pub symbol_name_map : Multimap String
  pub symbol_id_map : Map ℕ Pointer
  pub symbol_id_alias_map : Map ℕ ℕ
  pub symbol_id_alias_reverse_list : Map ℕ (List ℕ)
  pub base_type_name_map : Multimap String
  pub function_name_map : Map String Pointer
  pub func_list : List Pointer
  pub func_list_locked : Bool
  pub ref_base_type_name_map : Map String Pointer
  pub array_vector : List Pointer
  pub array_vector_locked : Bool
  pub array_type_map : Multimap ℕ
  pub variable_name_map : Map String Pointer

abbrev pub init : SymbolManager
init = record {
  heap = record { cells = []; next = 1 };
  ids = Ids.init;
  addresses = Addresses.init;
  symbol_name_map = [];
  symbol_id_map = [];
  symbol_id_alias_map = [];
  symbol_id_alias_reverse_list = [];
  base_type_name_map = [];
  function_name_map = [];
  func_list = [];
  func_list_locked = false;
  ref_base_type_name_map = [];
  array_vector = [];
  array_vector_locked = false;
  array_type_map = [];
  variable_name_map = [];
}

-- A method: what was changed before it fails stays changed.
abbrev pub Method : Type 0 → Type 0
Method A = SymbolManager → Outcome A × SymbolManager

abbrev pub pure : {A : Type 0} → A → Method A
pure a m = (ok a, m)

abbrev pub raise : {A : Type 0} → Failure → Method A
raise f m = (fail f, m)

abbrev pub lift : {A : Type 0} → Outcome A → Method A
lift o m = (o, m)

abbrev pub continue : {A B : Type 0} → Outcome A → (A → Method B) → Method B
continue (ok a) f m = f a m
continue (fail e) f m = (fail e, m)

infixl 5 ◌>>=◌ ◌>>◌
abbrev pub ◌>>=◌ : {A B : Type 0} → Method A → (A → Method B) → Method B
◌>>=◌ r f m = let (o, m') = r m in continue o f m'

abbrev pub ◌>>◌ : {B : Type 0} → Method (Unit {0}) → Method B → Method B
r >> k = r >>= λ _. k

abbrev pub get : Method SymbolManager
get m = (ok m, m)

abbrev pub put : SymbolManager → Method (Unit {0})
put m' m = (ok tt, m')

-- `*p`: undefined at a null pointer and at a deleted object.
unfoldable pub deref : Pointer → Method Symbol
deref p m = (or_fail (find m.heap.cells p) undefined, m)

-- An assignment to the object at `p`, which is there.
unfoldable pub store : Pointer → Symbol → Method (Unit {0})
store p s m = (ok tt, record m { heap = record m.heap { cells = assign m.heap.cells p s } })

-- `new`
unfoldable pub alloc : Symbol → Method Pointer
alloc s m = (
  ok m.heap.next,
  record m { heap = record { cells = assign m.heap.cells m.heap.next s; next = suc m.heap.next } },
)

-- `delete p`: the containers keep the pointer.
unfoldable pub delete : Pointer → Method (Unit {0})
delete p m = elim (find m.heap.cells p) [
  | none ↦ (fail undefined, m)
  | some _ ↦ (ok tt, record m { heap = record m.heap { cells = erase m.heap.cells p } })
]

-- An exception that leaves the body of a constructor: the object is freed, and the containers keep
-- the pointer.
abbrev pub on_throw : {A : Type 0} → Pointer → Outcome A → SymbolManager → Outcome A × SymbolManager
on_throw q (ok a) m = (ok a, m)
on_throw q (fail e) m = (
  fail e,
  if is_exception e then record m { heap = record m.heap { cells = erase m.heap.cells q } } else m,
)

-- The body of a constructor, once the object at `q` is registered.
abbrev pub constructing : {A : Type 0} → Pointer → Method A → Method A
constructing q r m = let (o, m') = r m in on_throw q o m'

unfoldable pub get_id : DwarfId → Method ℕ
get_id d m = let (i, ids) = Ids.get_id m.ids d in (ok i, record m { ids = ids })

unfoldable pub get_rev_id : ℕ → Method DwarfId
get_rev_id i m = let (d, ids) = Ids.get_rev_id m.ids i in (ok d, record m { ids = ids })
