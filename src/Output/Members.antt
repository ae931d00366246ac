-- ===== src/Output/Members.antt =====
-- Which members `Structured::print` lists (libdwarfparser/structured.cpp).
use libdwarfparser.Prelude.{
  ℕ, String, ◌≡◌, refl, Bool, false, Option, none, some, List, [], ◌∷◌, ◌++◌, ◌==◌, nat_eq,
  if◌then◌else◌, ◌∙◌, sym, or_else, or_else-none, or_else-if,
}
use libdwarfparser.Outcome.{Outcome, ok, fail}
use libdwarfparser.Map.{Map}
use libdwarfparser.OrderedMap.{
  OrderedMap, find, assign, find-assign, IsAscending, IsAscending-assign,
}
use libdwarfparser.Symbols.{Symbol, Pointer}
use libdwarfparser.Manager.{SymbolManager, continue, get_rev_id}
use libdwarfparser.Navigate.{location_of}
use libdwarfparser.Output.{Line, text}
use libdwarfparser.Output.Print.{
  local_members, member_lines, print_symbol, print_base_type, print_structured,
}

-- The objects are members, each at a location.
abbrev pub AreMembers : SymbolManager → Map String Pointer → Type 0
AreMembers m [] = Unit
AreMembers m ((name, sm) ∷ rest) =
    ((location : ℕ) × (location_of sm m ≡ (ok location, m))) × AreMembers m rest

abbrev is_at : Outcome ℕ → ℕ → Bool
is_at (ok l) location = l == location
is_at (fail e) location = false

-- The name of the last member that is at a location.
unfoldable pub last_name : SymbolManager → Map String Pointer → ℕ → Option String
last_name m [] location = none
last_name m ((name, sm) ∷ rest) location =
    or_else (last_name m rest location)
      (if is_at (location_of sm m).0 location then some name else none)

print_structured_lem :
    (m : SymbolManager) (s : Symbol) (encoding : ℕ) (members : Map String Pointer)
    (names : OrderedMap String)
    → local_members members [] m ≡ (ok names, m)
    → (lines : List Line) × (m' : SymbolManager) × (print_base_type s encoding m ≡ (ok lines, m'))
      × (print_structured s encoding members m
          ≡ (ok (lines ++ ((text "\t Members:      " ∷ []) ∷ member_lines names)), m'))
unfolding print_structured print_base_type print_symbol get_rev_id
print_structured_lem m s encoding members names run = (_, _, refl, rw (run, continue) refl)

local_members_lem :
    (m : SymbolManager) (members : Map String Pointer) (names : OrderedMap String)
    → AreMembers m members
    → IsAscending names
    → (names' : OrderedMap String) × (local_members members names m ≡ (ok names', m))
      × IsAscending names'
      × ((l : ℕ) → find names' l ≡ or_else (last_name m members l) (find names l))
unfolding local_members last_name
local_members_lem m [] names all a = (names, refl, a, λ l. refl)
local_members_lem m ((name, sm) ∷ rest) names ((location, at), all) a =
    let (names', run, a', each) =
      local_members_lem m rest (assign names location name) all
        (IsAscending-assign names location name a) in
    (
      names',
      rw (at, continue) run,
      a',
      λ l.
          each l
          ∙ rw (find-assign names location l name, last_name, at)
              (sym (or_else-if (last_name m rest l) (find names l) (location == l) name)),
    )

-- Where the members of a structure or a union are objects of that class, `Structured::print` returns;
-- below the lines of the type it lists the entries of a map in ascending order of the locations,
-- which has for every location the name of the last member, in the order of iteration, that is at it,
-- and no entry if there is none.
pub print_structured-last_name :
    (m : SymbolManager) (s : Symbol) (encoding : ℕ) (members : Map String Pointer)
    → AreMembers m members
    → (names : OrderedMap String) × (lines : List Line) × (m' : SymbolManager) × (print_base_type s
          encoding m
        ≡ (ok lines, m'))
      × (print_structured s encoding members m
          ≡ (ok (lines ++ ((text "\t Members:      " ∷ []) ∷ member_lines names)), m'))
      × IsAscending names
      × ((location : ℕ) → find names location ≡ last_name m members location)
unfolding find
print_structured-last_name m s encoding members all =
    let (names, run, ascending, each) = local_members_lem m members [] all tt in
    let (lines, m', printed, listed) = print_structured_lem m s encoding members names run in
    (
      names,
      lines,
      m',
      printed,
      listed,
      ascending,
      λ l. each l ∙ sym (or_else-none (last_name m members l)),
    )
