-- ===== src/Vmi.antt =====
-- `VMIInstance` (libvmiwrapper/vmiinstance.cpp): the memory and the pages of a virtual machine. What
-- libvmi does is a record. A call locks `vmiMutex` around each use of libvmi and releases it.
pub mod Vector
pub mod Unmapped
pub mod Pages
pub mod Memory
pub mod KernelPages
mod Tests
use libdwarfparser.Prelude.{
  ℕ, zero, suc, ◌+◌, ◌-◌, ◌*◌, ◌%◌, ◌^◌, String, Bool, true, false, not, ◌&&◌, ◌||◌, Option, none,
  some, List, [], ◌∷◌, ◌++◌, length, ltb, leb, ◌==◌, nat_eq, if◌then◌else◌,
}
use libdwarfparser.Outcome.{
  Outcome, ok, fail, vmi_exception, assertion, undefined, out_of_fuel, exits, ◌>>=◌, ◌>>◌, require,
  or_fail,
}
use libdwarfparser.Block.{u64}
use libdwarfparser.OrderedMap
use libdwarfparser.OrderedMap.{OrderedMap}

pub record PageInfo : Type 0 where
  pub vaddr : ℕ
  pub paddr : ℕ
  pub size : ℕ
  pub pte_value : ℕ
  pub pgd_value : ℕ
  pub pdpte_value : ℕ
  pub pml4e_value : ℕ

-- The functions and macros of libvmi. A read gives the bytes that could be read.
pub record Libvmi : Type 0 where
  pub default_flags : ℕ
  pub init : String → ℕ → Bool
  pub is_linux : Bool
  pub pause_vm : Bool
  pub resume_vm : Bool
  pub pid_to_dtb : ℕ → ℕ
  pub get_va_pages : ℕ → List PageInfo
  pub user_supervisor : ℕ → Bool
  pub get_bit : ℕ → ℕ → Bool
  pub entry_present : ℕ → Bool
  pub translate_uv2p : ℕ → ℕ → ℕ
  pub translate_kv2p : ℕ → ℕ
  pub read_8_va : ℕ → ℕ → Option ℕ
  pub read_16_va : ℕ → ℕ → Option ℕ
  pub read_32_va : ℕ → ℕ → Option ℕ
  pub read_64_va : ℕ → ℕ → Option ℕ
  pub read_va : ℕ → ℕ → ℕ → List ℕ
  pub read_str_va : ℕ → ℕ → Option String
  pub read_pa : ℕ → ℕ → List ℕ

-- `instance` is set, and the machine is paused.
pub record Vm : Type 0 where
  pub has_instance : Bool
  pub paused : Bool

-- The value that a failed read leaves in a variable that was set to 0.
abbrev pub value_or_zero : Option ℕ → ℕ
value_or_zero none = 0
value_or_zero (some v) = v

abbrev pub page_size : ℕ
page_size = 0x1000

-- `malloc` and `memset`
abbrev pub zeros : ℕ → List ℕ
zeros zero = []
zeros (suc n) = 0 ∷ zeros n

-- `std::min(0x1000, (int)(len - size))`, which is signed, as the unsigned number that libvmi takes.
unfoldable pub chunk : ℕ → ℕ → ℕ
chunk len size =
    let low = (len - size) % 2 ^ 32 in
    if ltb low (2 ^ 31)
    then (if ltb low page_size then low else page_size)
    else u64 - (2 ^ 32 - low)

-- `buffer + size` receives the bytes that are read.
unfoldable pub fill_buffer : List ℕ → ℕ → List ℕ → Outcome (List ℕ)
fill_buffer buffer size [] = ok buffer
fill_buffer [] size (b ∷ bytes) = fail undefined
fill_buffer (a ∷ buffer) zero (b ∷ bytes) = do rest ← fill_buffer buffer zero bytes; ok (b ∷ rest)
fill_buffer (a ∷ buffer) (suc size) (b ∷ bytes) = do
  rest ← fill_buffer buffer size (b ∷ bytes)
  ok (a ∷ rest)

-- The first `size` bytes of the buffer.
unfoldable pub copy_out : List ℕ → ℕ → Outcome (List ℕ)
copy_out buffer zero = ok []
copy_out [] (suc size) = fail undefined
copy_out (b ∷ buffer) (suc size) = do rest ← copy_out buffer size; ok (b ∷ rest)

module _ (v : Libvmi) where
  -- The constructor.
  unfoldable pub construct : Vm → String → ℕ → Outcome Vm
  construct vm name flags =
      let flags' = if flags == 0 then v.default_flags else flags in
      if not (v.init name flags')
      then fail vmi_exception
      else if not v.is_linux
      then fail vmi_exception
      else ok (record { has_instance = true; paused = false })

  unfoldable pub pause_vm : Vm → Outcome Vm
  pause_vm vm = if not v.pause_vm then fail vmi_exception else ok (record vm { paused = true })

  unfoldable pub resume_vm : Vm → Outcome Vm
  resume_vm vm =
      if not vm.paused
      then ok vm
      else if not v.resume_vm
      then fail vmi_exception
      else ok (record vm { paused = false })

  -- The destructor, which an exception does not leave: it ends the program.
  unfoldable pub destroy : Vm → Outcome Vm
  unfolding resume_vm
  destroy vm = elim (resume_vm vm) [
    | ok vm' ↦ ok (record vm' { has_instance = false })
    | fail e ↦ fail exits
  ]

  -- `IA32E_IS_PAGE_USER_SUPERVISOR` and `IS_PAGE_NX`
  unfoldable pub is_page_user : PageInfo → Bool
  is_page_user page =
      v.user_supervisor page.pte_value
      && (v.user_supervisor page.pgd_value
          && (v.user_supervisor page.pdpte_value && v.user_supervisor page.pml4e_value))

  unfoldable pub is_page_nx : PageInfo → Bool
  is_page_nx page =
      v.get_bit page.pte_value 63
      || (v.get_bit page.pgd_value 63
          || (v.get_bit page.pdpte_value 63 || v.get_bit page.pml4e_value 63))

  unfoldable pub is_page_superuser : PageInfo → Bool
  unfolding is_page_user
  is_page_superuser page = not (is_page_user page)

  unfoldable pub is_page_executable : PageInfo → Bool
  unfolding is_page_nx
  is_page_executable page = not (is_page_nx page)

  -- The test in the loop of `getPages`.
  unfoldable pub is_selected : ℕ → Bool → PageInfo → Bool
  unfolding is_page_superuser is_page_nx
  is_selected pid executable page =
      not (page.pml4e_value == 0)
      && (v.entry_present page.pte_value
          && ((pid == 0 && is_page_superuser page || not (pid == 0) && not (is_page_superuser page))
              && (not executable || not (is_page_nx page))))

  -- `std::map::insert`, which keeps an entry that is there.
  unfoldable pub insert_page : OrderedMap PageInfo → PageInfo → OrderedMap PageInfo
  insert_page pages page = elim (OrderedMap.find pages page.vaddr) [
    | none ↦ OrderedMap.assign pages page.vaddr page
    | some _ ↦ pages
  ]

  unfoldable pub select_pages : ℕ → Bool → List PageInfo → OrderedMap PageInfo → OrderedMap PageInfo
  unfolding is_selected insert_page
  select_pages pid executable [] pages = pages
  select_pages pid executable (page ∷ rest) pages =
      select_pages pid executable rest
        (if is_selected pid executable page then insert_page pages page else pages)

  -- `assert(pages)`: a list without nodes is a null pointer.
  abbrev pub is_empty : List PageInfo → Bool
  is_empty [] = true
  is_empty (page ∷ rest) = false

  unfoldable pub get_pages : ℕ → Bool → Outcome (OrderedMap PageInfo)
  unfolding select_pages
  get_pages pid executable = do
    let pages = v.get_va_pages (v.pid_to_dtb (if pid == 0 then 1 else pid))
    require (not (is_empty pages))
    ok (select_pages pid executable pages [])

  unfoldable pub translate_v2p : ℕ → ℕ → ℕ
  translate_v2p va pid = if not (pid == 0) then v.translate_uv2p va pid else v.translate_kv2p va

  abbrev pub read_8_from_va : ℕ → ℕ → ℕ
  read_8_from_va va pid = value_or_zero (v.read_8_va va pid)

  abbrev pub read_16_from_va : ℕ → ℕ → ℕ
  read_16_from_va va pid = value_or_zero (v.read_16_va va pid)

  abbrev pub read_32_from_va : ℕ → ℕ → ℕ
  read_32_from_va va pid = value_or_zero (v.read_32_va va pid)

  abbrev pub read_64_from_va : ℕ → ℕ → ℕ
  read_64_from_va va pid = value_or_zero (v.read_64_va va pid)

  unfoldable pub read_str_from_va : ℕ → ℕ → Outcome String
  read_str_from_va va pid = or_fail (v.read_str_va va pid) assertion

  -- The loop of `readVectorFromVA`, with the buffer and the size that it leaves.
  unfoldable pub read_rounds : ℕ → ℕ → ℕ → ℕ → Bool → List ℕ → ℕ → Outcome (List ℕ × ℕ)
  unfolding chunk fill_buffer
  read_rounds zero va len pid fillunmapped buffer size = fail out_of_fuel
  read_rounds (suc n) va len pid fillunmapped buffer size = elim (ltb size len) [
    | false ↦ ok (buffer, size)
    | true ↦
        let bytes = v.read_va ((va + size) % u64) pid (chunk len size) in
        fill_buffer buffer size bytes >>= λ buffer'. elim (length bytes == 0) [
          | false ↦ read_rounds n va len pid fillunmapped buffer' (size + length bytes)
          | true ↦ elim fillunmapped [
            | true ↦ read_rounds n va len pid true buffer' (size + length bytes + page_size)
            | false ↦ ok (buffer', size + length bytes)
          ]
        ]
  ]

  -- `malloc` is taken to succeed. Each round reads a byte, passes over a page or ends the loop.
  unfoldable pub read_vector_from_va : ℕ → ℕ → ℕ → Bool → Outcome (List ℕ)
  unfolding read_rounds copy_out
  read_vector_from_va va len pid fillunmapped = do
    (buffer, size) ← read_rounds (suc len) va len pid fillunmapped (zeros len) 0
    copy_out buffer size

  unfoldable pub read_vector_from_pa : ℕ → ℕ → Outcome (List ℕ)
  unfolding fill_buffer copy_out
  read_vector_from_pa pa len = do
    let bytes = v.read_pa pa len
    buffer ← fill_buffer (zeros len) 0 bytes
    copy_out buffer (length bytes)

  -- What `dumpMemory` writes to its file.
  unfoldable pub dump_memory : ℕ → ℕ → Outcome (List ℕ)
  unfolding read_vector_from_va
  dump_memory address len = read_vector_from_va address len 0 false

  -- The read of `VMIInstance::getInstance()->read64FromVA(va)`.
  unfoldable pub instance_read64 : Vm → ℕ → Outcome ℕ
  instance_read64 vm va = if vm.has_instance then ok (read_64_from_va va 0) else fail undefined

  -- The pages that the loop of `getPages` frees.
  unfoldable pub freed_pages : ℕ → Bool → List PageInfo → List PageInfo
  unfolding is_selected
  freed_pages pid executable [] = []
  freed_pages pid executable (page ∷ rest) =
      let freed = freed_pages pid executable rest in
      if is_selected pid executable page then freed else page ∷ freed

-- `destroyMap`: the pages that it frees, and the map that it returns.
abbrev pub pages_of : OrderedMap PageInfo → List PageInfo
pages_of [] = []
pages_of ((va, page) ∷ pages) = page ∷ pages_of pages

abbrev pub destroy_map : OrderedMap PageInfo → List PageInfo × OrderedMap PageInfo
destroy_map pages = (pages_of pages, [])
