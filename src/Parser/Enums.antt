-- ===== src/Parser/Enums.antt =====
-- `Enum` (libdwarfparser/enum.cpp): its values as `addEnum` enters them and `enumName` and
-- `enumValue` look them up.
pub mod Reading
mod Tests
use libdwarfparser.Prelude.{
  ℕ, ◌≡◌, refl, ◌%◌, String, some, [], ◌∷◌, ◌==◌, if◌then◌else◌, arith, nat_eq, nat_beq_iff, ◌<◌,
  Option-cases, Bool-cases, inl, inr, string_eq, eq_iff,
}
use libdwarfparser.Outcome.{ok}
use libdwarfparser.Map.{find, find-assign_own}
use libdwarfparser.OrderedMap
use libdwarfparser.OrderedMap.{OrderedMap, Above, IsAscending, find-assign}
use libdwarfparser.Symbols.{Symbol, Pointer, base_type, enumeration, as_enum}
use libdwarfparser.Manager.{SymbolManager}
use libdwarfparser.Parser.{Parser, Die, get_die_attribute_number}
use libdwarfparser.Parser.Objects.{add_enum, at_const_value, u32}
use libdwarfparser.Navigate.{enum_name, enum_value}

-- Once an enumerator is added to an enumeration, the enumeration gives its name for the low 32 bits
-- of its value, and for every other value what it gave before.
pub add_enum-enum_name :
    (p : Parser) (d : Die) (name : String) (q : Pointer) (m : SymbolManager) (s : Symbol)
    (e n w : ℕ) (values : OrderedMap String)
    → get_die_attribute_number p d at_const_value ≡ ok n
    → find m.heap.cells q ≡ some s
    → s.kind ≡ base_type e (enumeration values)
    → (t : Symbol) × (vs : OrderedMap String) × (find (add_enum p d name q m).1.heap.cells q
        ≡ some t)
      × (as_enum t.kind ≡ some vs)
      × (enum_name vs w ≡ (if n % u32 == w then ok name else enum_name values w))
unfolding add_enum enum_name as_enum
add_enum-enum_name p d name q m s e n w values numbered at enumerated =
    let vs = OrderedMap.assign values (n % u32) name in
    let t : Symbol = record s { kind = base_type e (enumeration vs) } in
    (
      t,
      vs,
      rw (numbered, at, enumerated) (find-assign_own m.heap.cells q t),
      refl,
      ground (arith, find-assign values (n % u32) w name),
    )

Above-find :
    (n : ℕ) (values : OrderedMap String) (v : ℕ) (name : String)
    → Above n values
    → OrderedMap.find values v ≡ some name
    → n < v
unfolding OrderedMap.find
Above-find n [] v name a h = cc
Above-find n ((k, x) ∷ values) v name a h = ground (arith, Above-find k values v name)

Above-IsAscending : (n : ℕ) (values : OrderedMap String) → Above n values → IsAscending values
Above-IsAscending n [] a = tt
Above-IsAscending n ((k, x) ∷ values) a = a.1

find-enum_value :
    (values : OrderedMap String) (v : ℕ) (name : String)
    → IsAscending values
    → OrderedMap.find values v ≡ some name
    → (w : ℕ) × (enum_value values name ≡ ok w) × (OrderedMap.find values w ≡ some name)
unfolding OrderedMap.find enum_value
find-enum_value [] v name a h = absurd (ground arith)
find-enum_value ((k, x) ∷ values) v name a h = elim (Bool-cases (x == name)) [
  | inl same ↦ (k, ground arith, ground (arith, eq_iff x name, nat_beq_iff k k))
  | inr other ↦
      let later : OrderedMap.find values v ≡ some name = ground (arith, eq_iff x name) in
      let (w, e, f) = find-enum_value values v name (Above-IsAscending k values a) later in
      (w, ground arith, ground (arith, Above-find k values w name, nat_beq_iff k w))
]

-- For the name that `enumName` gives for a value, `enumValue` gives a value, and `enumName` gives
-- the name for that value again; in a map whose keys ascend.
pub enum_name-enum_value :
    (values : OrderedMap String) (v : ℕ) (name : String)
    → IsAscending values
    → enum_name values v ≡ ok name
    → (w : ℕ) × (enum_value values name ≡ ok w) × (enum_name values w ≡ ok name)
unfolding enum_name
enum_name-enum_value values v name a h =
    let found : OrderedMap.find values v ≡ some name =
      ground (arith, Option-cases (OrderedMap.find values v)) in
    let (w, e, f) = find-enum_value values v name a found in (w, e, ground arith)
