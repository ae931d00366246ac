-- ===== src/Navigate/Instances.antt =====
-- The class `Instance` (libdwarfparser/instance.cpp): a type at an address in the memory of a
-- virtual machine. The `parent` of an instance is never read and is left out.
use libdwarfparser.Prelude.{
  ℕ, zero, suc, ◌+◌, ◌-◌, ◌*◌, ◌%◌, String, Bool, true, false, not, ◌&&◌, none, some, leb, ◌==◌,
  nat_eq, string_eq, if◌then◌else◌,
}
use libdwarfparser.Outcome.{Outcome, assertion, out_of_fuel, require, or_fail}
use libdwarfparser.Block.{u64}
use libdwarfparser.Symbols.{Kind, Pointer, as_ref_base_type, as_array, as_structured, as_pointer}
use libdwarfparser.Manager.{Method, pure, raise, lift, ◌>>=◌, ◌>>◌, deref}
use libdwarfparser.Manager.Lookup.{holds}
use libdwarfparser.Manager.Names.{find_base_type_by_name}
use libdwarfparser.Parser.Objects.{u32}
use libdwarfparser.Parser.Init.{casts_to}
use libdwarfparser.Navigate.{
  get_base_type, member_base_type, underlying, get_byte_size, location_of, member_by_name,
  member_by_offset, member_name_by_offset, member_offset,
}

pub record Instance : Type 0 where
  pub type : Pointer
  pub address : ℕ

abbrev pub null_instance : Instance
null_instance = record { type = 0; address = 0 }

abbrev pub assert : Bool → Method (Unit {0})
assert b = lift (require b)

abbrev pub non_zero : ℕ → Bool
non_zero n = not (n == 0)

-- `assert(dynamic_cast<Structured *>(bt))`
unfoldable pub assert_structured : Pointer → Method (Unit {0})
unfolding casts_to as_structured
assert_structured q = do b ← casts_to (λ k. holds (as_structured k)) q; assert b

unfoldable pub get_real_type : ℕ → Instance → Method Pointer
unfolding underlying
get_real_type n i = do assert (non_zero i.type); underlying n i.type

unfoldable pub get_length : Instance → Method ℕ
unfolding deref as_array
get_length i =
    if i.type == 0
    then pure 1
    else (deref i.type >>= λ s. elim (as_array s.kind) [
      | none ↦ pure 1
      | some (r, a) ↦ pure a.length
    ])

abbrev pub is_null : Instance → Bool
is_null i = i.address == 0

-- From the list that a structure contains to the structure.
unfoldable pub change_base_type : Instance → String → String → Method Instance
unfolding find_base_type_by_name deref assert_structured member_by_name location_of
change_base_type i new_type fieldname = deref i.type >>= λ s.
    find_base_type_by_name new_type >>= λ o. lift (or_fail o assertion) >>= λ t.
    if s.name == "list_head"
    then (do
      assert_structured t
      sm ← member_by_name t fieldname
      assert (non_zero sm)
      location ← location_of sm
      pure (record { type = t; address = (i.address + (u64 - location)) % u64 }))
    else pure (record { type = t; address = i.address })

-- What `libvmi` reads at an address.
module _ (read64 : ℕ → Outcome ℕ) where
  unfoldable pub follow : Pointer → ℕ → Bool → Method Instance
  unfolding get_base_type
  follow bt address expect_zero = do
    bt' ← get_base_type bt
    address' ← lift (read64 address)
    assert (if expect_zero then true else non_zero address')
    pure (record { type = bt'; address = address' })

  unfoldable pub instance_member : ℕ → Instance → String → Bool → Bool → Method Instance
  unfolding underlying assert_structured member_by_name member_base_type location_of casts_to
      as_pointer follow
  instance_member n i name ptr expect_zero = do
    assert (non_zero i.address)
    t ← underlying n i.type
    assert_structured t
    sm ← member_by_name t name
    assert (non_zero sm)
    bt ← member_base_type sm
    location ← location_of sm
    let address = (i.address + location) % u64
    assert (non_zero address)
    is_pointer ← casts_to (λ k. holds (as_pointer k)) bt
    if ptr && is_pointer
        then follow bt address expect_zero
        else pure (record { type = bt; address = address })

  -- The loop of `memberByOffset` over pointers, and that of `dereference` over references.
  unfoldable pub follow_all : (Kind → Bool) → ℕ → Pointer → ℕ → Method Instance
  unfolding casts_to get_base_type
  follow_all cast zero bt address = raise out_of_fuel
  follow_all cast (suc n) bt address = casts_to cast bt >>= λ b. elim b [
    | false ↦ pure (record { type = bt; address = address })
    | true ↦ get_base_type bt >>= λ bt'.
        lift (read64 address) >>= λ address'. follow_all cast n bt' address'
  ]

  unfoldable pub instance_by_offset : ℕ → Instance → ℕ → Bool → Method Instance
  unfolding get_byte_size assert_structured member_by_offset member_base_type location_of follow_all
      as_pointer
  instance_by_offset n i offset ptr = do
    size ← get_byte_size n i.type
    assert (leb offset size)
    assert_structured i.type
    o ← member_by_offset i.type (offset % u32)
    sm ← lift (or_fail o assertion)
    bt ← member_base_type sm
    location ← location_of sm
    let address = (i.address + location) % u64
    if ptr
        then follow_all (λ k. holds (as_pointer k)) n bt address
        else pure (record { type = bt; address = address })

  unfoldable pub dereference : ℕ → Instance → Method Instance
  unfolding follow_all as_ref_base_type
  dereference n i = follow_all (λ k. holds (as_ref_base_type k)) n i.type i.address

unfoldable pub member_name : ℕ → Instance → ℕ → Method String
unfolding underlying assert_structured member_name_by_offset
member_name n i offset = do
  assert (non_zero i.address)
  t ← underlying n i.type
  assert_structured t
  member_name_by_offset t (offset % u32)

unfoldable pub array_elem : ℕ → Instance → ℕ → Method Instance
unfolding get_length casts_to as_array get_base_type get_byte_size
array_elem n i element = do
  length ← get_length i
  assert (not (leb length element && non_zero length))
  is_array ← casts_to (λ k. holds (as_array k)) i.type
  assert is_array
  child ← get_base_type i.type
  size ← get_byte_size n child
  assert (non_zero size)
  pure (record { type = child; address = (i.address + element * size) % u64 })

unfoldable pub instance_offset : Instance → String → Method ℕ
unfolding assert_structured member_offset
instance_offset i name = do assert_structured i.type; member_offset i.type name

unfoldable pub same_instance : Instance → Instance → Bool
same_instance i j = if not (i.type == j.type) then false else i.address == j.address

unfoldable pub different_instance : Instance → Instance → Bool
unfolding same_instance
different_instance i j = not (same_instance i j)

-- `operator []`
unfoldable pub element : ℕ → Instance → ℕ → Method Instance
unfolding array_elem
element n i k = array_elem n i k

unfoldable pub instance_size : ℕ → Instance → Method ℕ
unfolding get_byte_size
instance_size n i = get_byte_size n i.type

unfoldable pub set_address : Instance → ℕ → Instance
set_address i address = record i { address = address }
