-- ===== src/Parser/Init.antt =====
-- `initSymbolFromDie` of `DwarfParser` (libdwarfparser/dwarfparser.cpp): the symbol that an entry
-- makes, finds again or adds to. A pointer that is 0 is null.
use libdwarfparser.Prelude.{String, Bool, true, false, none, some, [], ◌==◌, nat_eq, if◌then◌else◌}
use libdwarfparser.Outcome.{assertion, dwarf_exception}
use libdwarfparser.Symbols.{
  Kind, Pointer, base_type, structured, struct, union, plain, enumeration, ref_base_type, pointer,
  const_type, typedef, as_base_type, as_function, as_enum, as_structured, as_pointer, as_array,
}
use libdwarfparser.Manager.{Method, pure, raise, lift, ◌>>=◌, ◌>>◌, deref}
use libdwarfparser.Manager.Lookup.{holds}
use libdwarfparser.Manager.Names.{
  find_class_by_name, find_ref_base_type_by_name, find_variable_by_name,
}
use libdwarfparser.Parser.{Parser, Die, Tag, dlv_ok, die_has_attr, get_die_name, get_die_offset}
use libdwarfparser.Parser.Print.{print_die_data}
use libdwarfparser.Parser.Objects.{
  at_specification, new_base_type, new_ref_base_type, new_pointer, new_array, new_function,
  new_variable, update_array, update_function, update_variable, add_param, add_member, add_enum,
  add_alternative_dwarf_id,
}

-- The casts to the classes that have no data of their own.
abbrev pub is_struct : Kind → Bool
is_struct (base_type e (structured struct members)) = true
is_struct _ = false

abbrev pub is_union : Kind → Bool
is_union (base_type e (structured union members)) = true
is_union _ = false

abbrev pub is_const : Kind → Bool
is_const (base_type e (ref_base_type r const_type)) = true
is_const _ = false

abbrev pub is_typedef : Kind → Bool
is_typedef (base_type e (ref_base_type r typedef)) = true
is_typedef _ = false

-- The symbol that is known already is an alias of the entry.
unfoldable pub known_again : Parser → Die → Pointer → Method Pointer
unfolding get_die_offset add_alternative_dwarf_id
known_again p d q = do
  offset ← lift (get_die_offset p d)
  add_alternative_dwarf_id q offset p.file_id
  pure q

-- `getRefTypeInstance<T>`, with the cast to T and the constructor of T.
unfoldable pub get_ref_type_instance :
    (Kind → Bool) → Method Pointer → Parser → Die → String → Method Pointer
unfolding find_ref_base_type_by_name deref get_die_offset known_again
get_ref_type_instance cast new p d name = find_ref_base_type_by_name name >>= λ o. elim o [
  | none ↦ new
  | some q ↦ deref q >>= λ s. elim (cast s.kind) [
    | true ↦ known_again p d q
    | false ↦ lift (get_die_offset p d) >>= λ offset. pure 0
  ]
]

-- `getTypeInstance<T>`, with the cast to T, the constructor of T and its update.
unfoldable pub get_type_instance :
    (Kind → Bool)
    → Method Pointer
    → (Pointer → Method (Unit {0}))
    → Parser
    → Die
    → String
    → Method Pointer
unfolding find_class_by_name known_again
get_type_instance cast new update p d name = find_class_by_name cast name >>= λ o. elim o [
  | none ↦ new
  | some q ↦ update q >> known_again p d q
]

unfoldable pub get_variable_instance : Parser → Die → String → Method Pointer
unfolding find_variable_by_name new_variable update_variable known_again
get_variable_instance p d name = find_variable_by_name name >>= λ o. elim o [
  | none ↦ new_variable p d name
  | some q ↦ update_variable p d q >> known_again p d q
]

-- `dynamic_cast` of a pointer that may be null.
unfoldable pub casts_to : (Kind → Bool) → Pointer → Method Bool
unfolding deref
casts_to cast q = if q == 0 then pure false else (deref q >>= λ s. pure (cast s.kind))

abbrev pub no_update : Pointer → Method (Unit {0})
no_update q = pure tt

-- The entries that belong to their parent: what is done where the parent is of the class, and where
-- it is not.
unfoldable pub in_parent :
    (Kind → Bool) → Pointer → Method Pointer → Method Pointer → Method Pointer
unfolding casts_to
in_parent cast parent here otherwise = casts_to cast parent >>= λ b. if b then here else otherwise

unfoldable pub init_by_tag : Parser → Die → Pointer → String → Tag → Method Pointer
unfolding get_ref_type_instance get_type_instance get_variable_instance in_parent new_base_type
    new_ref_base_type new_pointer new_function new_array update_function add_member add_enum
    update_array add_param print_die_data
init_by_tag p d parent name Tag.typedef =
    get_ref_type_instance is_typedef (new_ref_base_type p d name typedef) p d name
init_by_tag p d parent name Tag.structure_type =
    get_type_instance is_struct (new_base_type p d name (structured struct [])) no_update p d name
init_by_tag p d parent name Tag.union_type =
    get_type_instance is_union (new_base_type p d name (structured union [])) no_update p d name
init_by_tag p d parent name Tag.member =
    in_parent (λ k. holds (as_structured k)) parent (add_member p d name parent) (pure 0)
init_by_tag p d parent name Tag.base_type =
    get_type_instance (λ k. holds (as_base_type k)) (new_base_type p d name plain) no_update p d
      name
init_by_tag p d parent name Tag.pointer_type =
    get_ref_type_instance (λ k. holds (as_pointer k)) (new_pointer p d name pointer) p d name
init_by_tag p d parent name Tag.const_type =
    get_ref_type_instance is_const (new_ref_base_type p d name const_type) p d name
init_by_tag p d parent name Tag.enumeration_type =
    get_type_instance (λ k. holds (as_enum k)) (new_base_type p d name (enumeration [])) no_update p
      d name
init_by_tag p d parent name Tag.enumerator =
    if parent == 0
    then raise assertion
    else in_parent (λ k. holds (as_enum k)) parent (add_enum p d name parent >> pure 0)
        (lift (print_die_data p d) >> pure 0)
init_by_tag p d parent name Tag.variable =
    if die_has_attr d at_specification then pure 0 else get_variable_instance p d name
init_by_tag p d parent name Tag.array_type = new_array p d name
init_by_tag p d parent name Tag.subrange_type =
    if parent == 0
    then raise assertion
    else in_parent (λ k. holds (as_array k)) parent (update_array p d parent >> pure 0)
        (lift (print_die_data p d) >> pure 0)
init_by_tag p d parent name Tag.subprogram =
    get_type_instance (λ k. holds (as_function k)) (new_function p d name) (update_function p d) p d
      name
init_by_tag p d parent name Tag.formal_parameter =
    in_parent (λ k. holds (as_function k)) parent (add_param p d parent >> pure 0) (pure 0)
init_by_tag p d parent name Tag.other_tag = elim d.tag_name [
  | dlv_ok tag_name ↦ pure 0
  | _ ↦ raise (dwarf_exception "Error in dwarf_get_TAG_name")
]
init_by_tag p d parent name _ = pure 0

unfoldable pub init_symbol_from_die : Parser → Die → Pointer → Method Pointer
unfolding get_die_name init_by_tag
init_symbol_from_die p d parent = elim d.tag [
  | dlv_ok tag ↦ lift (get_die_name d) >>= λ name. init_by_tag p d parent name tag
  | _ ↦ raise (dwarf_exception "Error in dwarf_get_TAG_name")
]
