-- ===== src/Parser/Objects.antt =====
-- The constructors of the symbols and the methods that update a symbol from an entry
-- (libdwarfparser/symbol.cpp, basetype.cpp, refbasetype.cpp, referencingtype.cpp, pointer.cpp,
-- array.cpp, function.cpp, variable.cpp, structuredmember.cpp, structured.cpp and enum.cpp). The
-- parts of an object that its constructor has not reached yet have their initial values.
use libdwarfparser.Prelude.{
  ℕ, ◌+◌, ◌%◌, ◌^◌, String, Bool, true, false, not, ◌&&◌, none, some, [], ◌∷◌, ◌++◌, ◌==◌, nat_eq,
  string_eq, if◌then◌else◌,
}
use libdwarfparser.Outcome.{undefined, dwarf_exception, require}
use libdwarfparser.Map
use libdwarfparser.Map.{Map, find}
use libdwarfparser.OrderedMap
use libdwarfparser.OrderedMap.{OrderedMap}
use libdwarfparser.Block.{u64}
use libdwarfparser.Symbols.{
  Kind, TypeKind, RefKind, FunctionData, ArrayData, MemberData, Pointer, base_type, variable,
  member, enumeration, function, structured, ref_base_type, array, as_function, as_structured,
}
use libdwarfparser.Manager.{
  constructing, Method, pure, raise, lift, ◌>>=◌, ◌>>◌, deref, store, alloc, get_id,
}
use libdwarfparser.Manager.Register.{
  add_symbol, add_base_type, add_ref_base_type, add_function, add_array, add_variable,
  add_alternative_id,
}
use libdwarfparser.Parser.{
  Parser, Die, die_has_attr, get_die_name, get_die_offset, get_die_byte_size,
  get_die_attribute_number,
}

-- The codes of the DWARF standard.
abbrev pub at_location : ℕ
at_location = 0x02

abbrev pub at_bit_offset : ℕ
at_bit_offset = 0x0c

abbrev pub at_bit_size : ℕ
at_bit_size = 0x0d

abbrev pub at_low_pc : ℕ
at_low_pc = 0x11

abbrev pub at_const_value : ℕ
at_const_value = 0x1c

abbrev pub at_upper_bound : ℕ
at_upper_bound = 0x2f

abbrev pub at_data_member_location : ℕ
at_data_member_location = 0x38

abbrev pub at_encoding : ℕ
at_encoding = 0x3e

abbrev pub at_specification : ℕ
at_specification = 0x47

abbrev pub at_type : ℕ
at_type = 0x49

abbrev pub u32 : ℕ
u32 = 2 ^ 32

abbrev pub when : Bool → Method (Unit {0}) → Method (Unit {0})
when b r = if b then r else pure tt

abbrev pub number : Parser → Die → ℕ → Method ℕ
number p d attr = lift (get_die_attribute_number p d attr)

-- Assignments to the fields of a class of objects.
abbrev pub with_encoding : ℕ → Kind → Kind
with_encoding e (base_type _ t) = base_type e t
with_encoding e k = k

abbrev pub with_function : (FunctionData → FunctionData) → Kind → Kind
with_function f (base_type e (function d)) = base_type e (function (f d))
with_function f k = k

abbrev pub with_array : (ArrayData → ArrayData) → Kind → Kind
with_array f (base_type e (ref_base_type r (array a))) = base_type e (ref_base_type r (array (f a)))
with_array f k = k

abbrev pub with_members : (Map String Pointer → Map String Pointer) → Kind → Kind
with_members f (base_type e (structured k members)) = base_type e (structured k (f members))
with_members f k = k

abbrev pub with_values : (OrderedMap String → OrderedMap String) → Kind → Kind
with_values f (base_type e (enumeration values)) = base_type e (enumeration (f values))
with_values f k = k

-- `this->type`, of a `RefBaseType` and of a `ReferencingType`.
abbrev pub with_type : ℕ → Kind → Kind
with_type t (base_type e (ref_base_type r k)) =
    base_type e (ref_base_type (record r { type = some t }) k)
with_type t (variable r location) = variable (record r { type = some t }) location
with_type t (member r fields) = member (record r { type = some t }) fields
with_type t k = k

abbrev pub with_location : ℕ → Kind → Kind
with_location location (variable r _) = variable r location
with_location location k = k

abbrev pub with_member : (MemberData → MemberData) → Kind → Kind
with_member f (member r fields) = member r (f fields)
with_member f k = k

unfoldable pub modify : Pointer → (Kind → Kind) → Method (Unit {0})
unfolding deref store
modify q f = do s ← deref q; store q (record s { kind = f s.kind })

-- The identifier of the type that an entry refers to, which is asserted not to be 0.
unfoldable pub type_of : Parser → Die → Method ℕ
unfolding get_id
type_of p d = do
  dwarf_type ← number p d at_type
  id ← get_id (dwarf_type, p.file_id)
  lift (require (not (id == 0)))
  pure id

unfoldable pub new_symbol : Parser → Die → String → Kind → Method Pointer
unfolding get_id alloc add_symbol
new_symbol p d name kind = do
  size ← lift (get_die_byte_size p d)
  offset ← lift (get_die_offset p d)
  id ← get_id (offset, p.file_id)
  q ← alloc (record { name = name; byte_size = size % u32; id = id; kind = kind })
  add_symbol q
  pure q

unfoldable pub add_alternative_dwarf_id : Pointer → ℕ → ℕ → Method (Unit {0})
unfolding deref get_id add_alternative_id
add_alternative_dwarf_id q dwarf_id file_id = do
  internal_id ← get_id (dwarf_id, file_id)
  s ← deref q
  add_alternative_id s.id internal_id

unfoldable pub new_base_type : Parser → Die → String → TypeKind → Method Pointer
unfolding new_symbol modify add_base_type
new_base_type p d name t = do
  q ← new_symbol p d name (base_type 0 t)
  constructing q (do
    when (die_has_attr d at_encoding) (number p d at_encoding >>= λ e. modify q (with_encoding e))
    add_base_type q
    pure q)

unfoldable pub new_ref_base_type : Parser → Die → String → RefKind → Method Pointer
unfolding new_base_type type_of modify add_ref_base_type
new_ref_base_type p d name k = do
  q ← new_base_type p d name (ref_base_type (record { type = some 0; base = none }) k)
  constructing q (do
    when (die_has_attr d at_type) (type_of p d >>= λ t. modify q (with_type t))
    add_ref_base_type q
    pure q)

unfoldable pub new_pointer : Parser → Die → String → RefKind → Method Pointer
unfolding new_ref_base_type deref store
new_pointer p d name k = do
  q ← new_ref_base_type p d name k
  s ← deref q
  store q (record s { byte_size = 8 })
  pure q

unfoldable pub new_array : Parser → Die → String → Method Pointer
unfolding new_pointer add_array
new_array p d name = do
  q ← new_pointer p d name (array (record { length = 0; length_type = 0 }))
  add_array q
  pure q

-- `Array::update`
unfoldable pub update_array : Parser → Die → Pointer → Method (Unit {0})
unfolding type_of modify
update_array p d q = do
  when (die_has_attr d at_type)
      (type_of p d >>= λ t. modify q (with_array (λ a. record a { length_type = t })))
  when (die_has_attr d at_upper_bound) (
      number p d at_upper_bound >>= λ n.
      modify q (with_array (λ a. record a { length = (n + 1) % u64 })))

-- The function at a pointer that is known to lead to one.
unfoldable pub function_at : Pointer → Method FunctionData
unfolding deref as_function
function_at q =
    deref q >>= λ s. elim (as_function s.kind) [ none ↦ raise undefined | some f ↦ pure f ]

-- `Function::update`
unfoldable pub update_function : Parser → Die → Pointer → Method (Unit {0})
unfolding function_at type_of modify
update_function p d q = do
  f ← function_at q
  when (f.rettype == 0 && die_has_attr d at_type)
      (type_of p d >>= λ t. modify q (with_function (λ f. record f { rettype = t })))
  when (f.address == 0 && die_has_attr d at_low_pc)
      (number p d at_low_pc >>= λ a. modify q (with_function (λ f. record f { address = a })))
  modify q (with_function (λ f. record f { params_final = true }))

-- `Function::addParam`
unfoldable pub add_param : Parser → Die → Pointer → Method (Unit {0})
unfolding function_at get_id modify
add_param p d q = do
  f ← function_at q
  when (not f.params_final && die_has_attr d at_type) (
      number p d at_type >>= λ dwarf_type. get_id (dwarf_type, p.file_id) >>= λ param_type.
      lift (get_die_name d) >>= λ name.
      lift (require (not (param_type == 0)))
      >> modify q
          (with_function (λ f. record f { param_list = f.param_list ++ (name, param_type) ∷ [] })))

unfoldable pub new_function : Parser → Die → String → Method Pointer
unfolding new_base_type update_function add_function modify
new_function p d name = do
  q ←
      new_base_type p d name
        (function (record { rettype = 0; address = 0; param_list = []; params_final = false }))
  constructing q (do
    update_function p d q
    add_function q
    modify q (with_function (λ f. record f { params_final = false }))
    pure q)

-- The constructor of `ReferencingType`, which leaves `type` unset where the entry has none.
unfoldable pub init_reference : Parser → Die → Pointer → Method (Unit {0})
unfolding type_of modify
init_reference p d q = when (die_has_attr d at_type) (type_of p d >>= λ t. modify q (with_type t))

unfoldable pub read_location : Parser → Die → Pointer → Method (Unit {0})
unfolding modify
read_location p d q =
    when (die_has_attr d at_location) (number p d at_location >>= λ a. modify q (with_location a))

unfoldable pub new_variable : Parser → Die → String → Method Pointer
unfolding new_symbol init_reference add_variable read_location
new_variable p d name = do
  q ← new_symbol p d name (variable (record { type = none; base = none }) 0)
  constructing q (do init_reference p d q; add_variable q; read_location p d q; pure q)

-- `Variable::update`
unfoldable pub update_variable : Parser → Die → Pointer → Method (Unit {0})
unfolding deref read_location
update_variable p d q = deref q >>= λ s. elim s.kind [
  | variable r location ↦ if not (location == 0) then pure tt else read_location p d q
  | _ ↦ raise undefined
]

-- One of the 32-bit fields of a `StructuredMember`.
unfoldable pub read_field :
    Parser → Die → ℕ → Pointer → (ℕ → MemberData → MemberData) → Method (Unit {0})
unfolding modify
read_field p d attr q set =
    when (die_has_attr d attr) (number p d attr >>= λ n. modify q (with_member (set (n % u32))))

unfoldable pub new_member : Parser → Die → String → Pointer → Method Pointer
unfolding new_symbol init_reference read_field
new_member p d name parent = do
  q ← new_symbol p d name (
      member (record { type = none; base = none })
        (record { bit_size = 0; bit_offset = 0; member_location = 0; parent = parent }))
  constructing q (do
    init_reference p d q
    if parent == 0 then raise (dwarf_exception "Parent not set") else do
      read_field p d at_bit_size q (λ n fields. record fields { bit_size = n })
      read_field p d at_bit_offset q (λ n fields. record fields { bit_offset = n })
      read_field p d at_data_member_location q (λ n fields. record fields { member_location = n })
      pure q)

-- `Structured::addMember`
unfoldable pub add_member : Parser → Die → String → Pointer → Method Pointer
unfolding deref as_structured new_member modify
add_member p d name parent = deref parent >>= λ s. elim (as_structured s.kind) [
  | none ↦ raise undefined
  | some members ↦ elim (find members name) [
    | some q ↦ pure q
    | none ↦ new_member p d name parent >>= λ q.
        modify parent (with_members (λ ms. Map.assign ms name q)) >> pure q
  ]
]

-- `Enum::addEnum`
unfoldable pub add_enum : Parser → Die → String → Pointer → Method (Unit {0})
unfolding modify
add_enum p d name q = do
  enum_value ← number p d at_const_value
  modify q (with_values (λ values. OrderedMap.assign values (enum_value % u32) name))
