-- ===== src/Output/Print.antt =====
-- The methods `print` of the classes of symbols (libdwarfparser/symbol.cpp, basetype.cpp,
-- refbasetype.cpp, referencingtype.cpp, consttype.cpp, pointer.cpp, array.cpp, structured.cpp, enum.cpp, function.cpp,
-- variable.cpp) and of `Instance` (libdwarfparser/instance.cpp). What is written before a failure is
-- left out.
use libdwarfparser.Prelude.{ℕ, String, List, [], ◌∷◌, ◌++◌}
use libdwarfparser.Outcome.{undefined, or_fail}
use libdwarfparser.OrderedMap.{OrderedMap, assign}
use libdwarfparser.Map.{Map}
use libdwarfparser.Symbols.{
  Symbol, Pointer, Reference, RefKind, FunctionData, ArrayData, TypeKind, base_type, variable,
  member, plain, enumeration, function, structured, ref_base_type, pointer, const_type, typedef,
  func_pointer, array,
}
use libdwarfparser.Manager.{Method, pure, lift, ◌>>=◌, deref, get_rev_id}
use libdwarfparser.Navigate.{location_of}
use libdwarfparser.Navigate.Instances.{Instance}
use libdwarfparser.Output.{text, dec, hex, Line}

-- `Symbol::print`
unfoldable pub print_symbol : Symbol → Method (List Line)
unfolding get_rev_id
print_symbol s = get_rev_id s.id >>= λ (offset, file). pure (
    (text "Symbolname:      " ∷ text s.name ∷ [])
    ∷ (text "\t ID:           " ∷ hex s.id ∷ [])
    ∷ (text "\t Dwarf ID:     " ∷ hex offset ∷ [])
    ∷ (text "\t Dwarf File:   " ∷ hex file ∷ [])
    ∷ (text "\t Bytesize:     " ∷ dec s.byte_size ∷ [])
    ∷ [])

-- `BaseType::print`
unfoldable pub print_base_type : Symbol → ℕ → Method (List Line)
unfolding print_symbol
print_base_type s encoding = print_symbol s >>= λ lines.
    pure
      (lines ++ ((text "\t BaseType:" ∷ []) ∷ (text "\t Encoding:     " ∷ dec encoding ∷ []) ∷ []))

-- `localMemberMap` of `Structured::print`: the names of the members by their locations, where a later
-- one of the iteration replaces an earlier one.
unfoldable pub local_members : Map String Pointer → OrderedMap String → Method (OrderedMap String)
unfolding location_of
local_members [] names = pure names
local_members ((name, sm) ∷ rest) names =
    location_of sm >>= λ location. local_members rest (assign names location name)

unfoldable pub member_lines : OrderedMap String → List Line
member_lines [] = []
member_lines ((location, name) ∷ rest) =
    (text "\t\t 0x" ∷ hex location ∷ text "\t" ∷ text name ∷ []) ∷ member_lines rest

-- `Structured::print`
unfoldable pub print_structured : Symbol → ℕ → Map String Pointer → Method (List Line)
unfolding local_members print_base_type member_lines
print_structured s encoding members = local_members members [] >>= λ names.
    print_base_type s encoding >>= λ lines.
    pure (lines ++ ((text "\t Members:      " ∷ []) ∷ member_lines names))

-- `Function::print`
unfoldable pub param_lines : List (String × ℕ) → List Line
param_lines [] = []
param_lines ((name, id) ∷ rest) = (text "\t Param:        " ∷ hex id ∷ []) ∷ param_lines rest

unfoldable pub print_function : Symbol → ℕ → FunctionData → Method (List Line)
unfolding print_base_type param_lines
print_function s encoding f = print_base_type s encoding >>= λ lines.
    pure (lines ++ ((text "\t Address:      " ∷ hex f.address ∷ []) ∷ param_lines f.param_list))

-- `RefBaseType::print`, `Pointer::print` and `Array::print`. A type that the constructor has not set
-- is not known.
unfoldable pub print_ref_base_type : Symbol → ℕ → ℕ → Method (List Line)
unfolding print_base_type
print_ref_base_type s encoding type = print_base_type s encoding >>= λ lines.
    pure (lines ++ ((text "\t Ref Type      " ∷ hex type ∷ []) ∷ []))

unfoldable pub print_pointer : Symbol → ℕ → ℕ → Method (List Line)
unfolding print_ref_base_type
print_pointer s encoding type = print_ref_base_type s encoding type >>= λ lines.
    pure (lines ++ ((text "\t Pointer Size  " ∷ dec s.byte_size ∷ []) ∷ []))

unfoldable pub print_array : Symbol → ℕ → ℕ → ArrayData → Method (List Line)
unfolding print_pointer
print_array s encoding type a = print_pointer s encoding type >>= λ lines. pure (
    lines
    ++ ((text "\t Array Type:   " ∷ hex type ∷ [])
        ∷ (text "\t Length        " ∷ dec a.length ∷ [])
        ∷ []))

-- `ConstType::print`
unfoldable pub print_const_type : Symbol → ℕ → ℕ → Method (List Line)
unfolding print_ref_base_type
print_const_type s encoding type = print_ref_base_type s encoding type >>= λ lines.
    pure (lines ++ ((text "\t ConstType:" ∷ []) ∷ []))

-- `Typedef::print` and `FuncPointer::print` are `RefBaseType::print`.
unfoldable pub print_reference : Symbol → ℕ → ℕ → RefKind → Method (List Line)
unfolding print_ref_base_type print_pointer print_array print_const_type
print_reference s encoding type pointer = print_pointer s encoding type
print_reference s encoding type (array a) = print_array s encoding type a
print_reference s encoding type const_type = print_const_type s encoding type
print_reference s encoding type typedef = print_ref_base_type s encoding type
print_reference s encoding type func_pointer = print_ref_base_type s encoding type

-- The method of the class below `BaseType`. `Enum::print` is `BaseType::print`.
unfoldable pub print_type : Symbol → ℕ → TypeKind → Method (List Line)
unfolding print_base_type print_structured print_function print_reference
print_type s encoding plain = print_base_type s encoding
print_type s encoding (enumeration values) = print_base_type s encoding
print_type s encoding (function f) = print_function s encoding f
print_type s encoding (structured k members) = print_structured s encoding members
print_type s encoding (ref_base_type r k) =
    lift (or_fail r.type undefined) >>= λ type. print_reference s encoding type k

-- `Variable::print`, with `ReferencingType::print`
unfoldable pub print_variable : Symbol → Reference → ℕ → Method (List Line)
unfolding print_symbol
print_variable s r location = lift (or_fail r.type undefined) >>= λ type.
    print_symbol s >>= λ lines. pure (
      (text "Variable:" ∷ [])
      ∷ (text "\t Location:     " ∷ text "0x" ∷ hex location ∷ [])
      ∷ (lines ++ ((text "\t ReferenceType:" ∷ dec type ∷ []) ∷ [])))

-- `print` of the object that a pointer leads to. A member has the method of `Symbol`.
unfoldable pub print_object : Pointer → Method (List Line)
unfolding deref print_type print_variable print_symbol
print_object q = deref q >>= λ s. elim s.kind [
  | base_type e t ↦ print_type s e t
  | variable r location ↦ print_variable s r location
  | member r d ↦ print_symbol s
]

-- `Enum::printEnumMembers`
unfoldable pub enum_lines : OrderedMap String → List Line
enum_lines [] = []
enum_lines ((value, name) ∷ rest) = (text name ∷ text ": " ∷ dec value ∷ []) ∷ enum_lines rest

-- `Instance::print`
unfoldable pub print_instance : Instance → Method (List Line)
unfolding print_object
print_instance i =
    print_object i.type >>= λ lines. pure ((text "Instance @       " ∷ hex i.address ∷ []) ∷ lines)

-- `Structured::listMembers`
unfoldable pub name_lines : Map String Pointer → Method (List Line)
unfolding deref
name_lines [] = pure []
name_lines ((name, sm) ∷ rest) =
    deref sm >>= λ s. name_lines rest >>= λ lines. pure ((text s.name ∷ []) ∷ lines)

unfoldable pub list_members : Symbol → Map String Pointer → Method (List Line)
unfolding name_lines
list_members s members = name_lines members >>= λ lines.
    pure ((text "Members of " ∷ text s.name ∷ text ": " ∷ []) ∷ lines)
