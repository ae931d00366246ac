-- ===== src/Parser/Sound/Updates.antt =====
-- The constructors of functions, variables and members and the updates of symbols keep the
-- containers of `SymbolManager` sound (libdwarfparser/function.cpp, variable.cpp, array.cpp,
-- structured.cpp, structuredmember.cpp and enum.cpp).
use libdwarfparser.Prelude.{
  ℕ, ◌+◌, ◌%◌, String, Bool, true, false, not, ◌&&◌, Option, none, some, [], ◌∷◌, ◌++◌, ◌==◌,
  if◌then◌else◌, nat_eq, string_eq,
}
use libdwarfparser.Outcome.{dwarf_exception, undefined, require}
use libdwarfparser.Map
use libdwarfparser.Map.{Map, find}
use libdwarfparser.OrderedMap
use libdwarfparser.Block.{u64}
use libdwarfparser.Symbols.{
  Kind, Pointer, MemberData, base_type, variable, member, function, as_function, as_structured,
}
use libdwarfparser.Manager.{Method, pure, raise, ◌>>=◌}
use libdwarfparser.Manager.Register.{add_function, add_variable}
use libdwarfparser.Manager.Sound.Keeps.{
  Keeps, constructing-Keeps, pure-Keeps, raise-Keeps, lift-Keeps, bind-Keeps, deref-Keeps,
  get_id-Keeps,
}
use libdwarfparser.Manager.Sound.Register.{add_variable-Keeps, add_function-Keeps}
use libdwarfparser.Parser.{Parser, Die, die_has_attr, get_die_name, get_die_attribute_number}
use libdwarfparser.Parser.Objects.{
  u32, at_type, at_location, at_upper_bound, at_low_pc, at_const_value, at_bit_size, at_bit_offset,
  at_data_member_location, with_type, with_array, with_function, with_location, with_member, modify,
  with_members, with_values, new_function, new_variable, new_member, update_array, update_function,
  update_variable, add_param, add_member, add_enum, function_at, init_reference, read_location,
  read_field,
}
use libdwarfparser.Parser.Sound.{
  when-Keeps, modify-Keeps, store_number-Keeps, store_type-Keeps, new_symbol-Keeps,
  new_base_type-Keeps,
}

pub option-Keeps :
    {A B : Type 0} (o : Option A) (r : Method B) (f : A → Method B)
    → Keeps r
    → ((a : A) → Keeps (f a))
    → Keeps (elim o [ none ↦ r | some a ↦ f a ])
option-Keeps none r f h k = h
option-Keeps (some a) r f h k = k a

pub if-Keeps :
    {B : Type 0} (b : Bool) (r k : Method B) → Keeps r → Keeps k → Keeps (if b then r else k)
if-Keeps true r k h h' = h
if-Keeps false r k h h' = h'

pub update_array-Keeps : (p : Parser) (d : Die) (q : Pointer) → Keeps (update_array p d q)
unfolding update_array
update_array-Keeps p d q =
    bind-Keeps
      (when-Keeps (die_has_attr d at_type) _
        (store_type-Keeps p d q (λ t. with_array (λ a. record a { length_type = t }))))
      (λ _. when-Keeps (die_has_attr d at_upper_bound) _ (
        store_number-Keeps (get_die_attribute_number p d at_upper_bound) q
          (λ n. with_array (λ a. record a { length = (n + 1) % u64 }))))

function_at-Keeps : (q : Pointer) → Keeps (function_at q)
unfolding function_at
function_at-Keeps q = bind-Keeps (deref-Keeps q) (λ s.
    option-Keeps (as_function s.kind) (raise undefined) pure (raise-Keeps undefined) pure-Keeps)

pub update_function-Keeps : (p : Parser) (d : Die) (q : Pointer) → Keeps (update_function p d q)
unfolding update_function
update_function-Keeps p d q = bind-Keeps (function_at-Keeps q) (λ f.
    bind-Keeps
      (when-Keeps (f.rettype == 0 && die_has_attr d at_type) _
        (store_type-Keeps p d q (λ t. with_function (λ f. record f { rettype = t }))))
      (λ _.
        bind-Keeps
          (when-Keeps (f.address == 0 && die_has_attr d at_low_pc) _ (
            store_number-Keeps (get_die_attribute_number p d at_low_pc) q
              (λ a. with_function (λ f. record f { address = a }))))
          (λ _. modify-Keeps q (with_function (λ f. record f { params_final = true })))))

pub add_param-Keeps : (p : Parser) (d : Die) (q : Pointer) → Keeps (add_param p d q)
unfolding add_param
add_param-Keeps p d q = bind-Keeps (function_at-Keeps q) (λ f.
    when-Keeps (not f.params_final && die_has_attr d at_type) _ (
      bind-Keeps (lift-Keeps (get_die_attribute_number p d at_type)) (λ dwarf_type.
        bind-Keeps (get_id-Keeps (dwarf_type, p.file_id)) (λ param_type.
          bind-Keeps (lift-Keeps (get_die_name d)) (λ name.
            bind-Keeps (lift-Keeps (require (not (param_type == 0)))) (λ _. modify-Keeps q (
              with_function
                (λ f. record f { param_list = f.param_list ++ (name, param_type) ∷ [] }))))))))

pub function_rest-Keeps :
    (p : Parser) (d : Die) (q : Pointer)
    → Keeps (
        update_function p d q >>= λ _. add_function q >>= λ _.
        modify q (with_function (λ f. record f { params_final = false })) >>= λ _. pure q)
function_rest-Keeps p d q = bind-Keeps (update_function-Keeps p d q) (λ _.
    bind-Keeps (add_function-Keeps q) (λ _.
      bind-Keeps (modify-Keeps q (with_function (λ f. record f { params_final = false })))
        (λ _. pure-Keeps q)))

pub new_function-Keeps : (p : Parser) (d : Die) (name : String) → Keeps (new_function p d name)
unfolding new_function
new_function-Keeps p d name =
    bind-Keeps
      (new_base_type-Keeps p d name
        (function (record { rettype = 0; address = 0; param_list = []; params_final = false })))
      (λ q. constructing-Keeps q (function_rest-Keeps p d q))

init_reference-Keeps : (p : Parser) (d : Die) (q : Pointer) → Keeps (init_reference p d q)
unfolding init_reference
init_reference-Keeps p d q =
    when-Keeps (die_has_attr d at_type) _ (store_type-Keeps p d q with_type)

read_location-Keeps : (p : Parser) (d : Die) (q : Pointer) → Keeps (read_location p d q)
unfolding read_location
read_location-Keeps p d q =
    when-Keeps (die_has_attr d at_location) _
      (store_number-Keeps (get_die_attribute_number p d at_location) q with_location)

pub variable_rest-Keeps :
    (p : Parser) (d : Die) (q : Pointer)
    → Keeps
        (init_reference p d q >>= λ _. add_variable q >>= λ _. read_location p d q >>= λ _. pure q)
variable_rest-Keeps p d q = bind-Keeps (init_reference-Keeps p d q) (λ _.
    bind-Keeps (add_variable-Keeps q)
      (λ _. bind-Keeps (read_location-Keeps p d q) (λ _. pure-Keeps q)))

pub new_variable-Keeps : (p : Parser) (d : Die) (name : String) → Keeps (new_variable p d name)
unfolding new_variable
new_variable-Keeps p d name =
    bind-Keeps (new_symbol-Keeps p d name (variable (record { type = none; base = none }) 0))
      (λ q. constructing-Keeps q (variable_rest-Keeps p d q))

update_kind-Keeps :
    (p : Parser) (d : Die) (q : Pointer) (k : Kind)
    → Keeps {A = Unit {0}} (elim k [
      | variable r location ↦ if not (location == 0) then pure tt else read_location p d q
      | _ ↦ raise undefined
    ])
update_kind-Keeps p d q (variable r location) =
    if-Keeps (not (location == 0)) (pure tt) (read_location p d q) (pure-Keeps tt)
      (read_location-Keeps p d q)
update_kind-Keeps p d q (base_type e t) = raise-Keeps undefined
update_kind-Keeps p d q (member r fields) = raise-Keeps undefined

pub update_variable-Keeps : (p : Parser) (d : Die) (q : Pointer) → Keeps (update_variable p d q)
unfolding update_variable
update_variable-Keeps p d q = bind-Keeps (deref-Keeps q) (λ s. update_kind-Keeps p d q s.kind)

read_field-Keeps :
    (p : Parser) (d : Die) (attr : ℕ) (q : Pointer) (set : ℕ → MemberData → MemberData)
    → Keeps (read_field p d attr q set)
unfolding read_field
read_field-Keeps p d attr q set =
    when-Keeps (die_has_attr d attr) _
      (store_number-Keeps (get_die_attribute_number p d attr) q (λ n. with_member (set (n % u32))))

new_member-Keeps :
    (p : Parser) (d : Die) (name : String) (parent : Pointer) → Keeps (new_member p d name parent)
unfolding new_member
new_member-Keeps p d name parent =
    bind-Keeps
      (new_symbol-Keeps p d name (
        member (record { type = none; base = none })
          (record { bit_size = 0; bit_offset = 0; member_location = 0; parent = parent })))
      (λ q. constructing-Keeps q (
        bind-Keeps (init_reference-Keeps p d q) (λ _.
          if-Keeps (parent == 0) (raise (dwarf_exception "Parent not set")) _
            (raise-Keeps (dwarf_exception "Parent not set"))
            (bind-Keeps
              (read_field-Keeps p d at_bit_size q (λ n fields. record fields { bit_size = n }))
              (λ _.
                bind-Keeps
                  (read_field-Keeps p d at_bit_offset q
                    (λ n fields. record fields { bit_offset = n }))
                  (λ _.
                    bind-Keeps
                      (read_field-Keeps p d at_data_member_location q
                        (λ n fields. record fields { member_location = n }))
                      (λ _. pure-Keeps q)))))))

pub add_member-Keeps :
    (p : Parser) (d : Die) (name : String) (parent : Pointer) → Keeps (add_member p d name parent)
unfolding add_member
add_member-Keeps p d name parent = bind-Keeps (deref-Keeps parent) (λ s.
    option-Keeps (as_structured s.kind) (raise undefined) _ (raise-Keeps undefined) (λ members.
      option-Keeps (find members name) _ pure
        (bind-Keeps (new_member-Keeps p d name parent) (λ q.
          bind-Keeps (modify-Keeps parent (with_members (λ ms. Map.assign ms name q)))
            (λ _. pure-Keeps q)))
        pure-Keeps))

pub add_enum-Keeps :
    (p : Parser) (d : Die) (name : String) (q : Pointer) → Keeps (add_enum p d name q)
unfolding add_enum
add_enum-Keeps p d name q =
    store_number-Keeps (get_die_attribute_number p d at_const_value) q
      (λ n. with_values (λ values. OrderedMap.assign values (n % u32) name))
