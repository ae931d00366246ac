-- ===== src/Vmi/Tests.antt =====
-- Runs of the model of `VMIInstance` (libvmiwrapper/vmiinstance.cpp) on a small machine.
use libdwarfparser.Prelude.{
  ℕ, ◌+◌, ◌-◌, ◌%◌, ◌≡◌, refl, true, false, none, [], ◌∷◌, ◌++◌, ◌==◌, nat_eq, arith,
}
use libdwarfparser.Outcome.{ok, fail, undefined}
use libdwarfparser.OrderedMap.{OrderedMap, find, assign, IsAscending}
use libdwarfparser.Vmi.{
  freed_pages, destroy_map, is_page_superuser, is_page_nx, is_page_user, PageInfo, Libvmi,
  is_selected, get_pages, read_vector_from_va,
}
use libdwarfparser.Vmi.Vector.{bytes, min, IsMapped, read_vector_from_va-eq-bytes}
use libdwarfparser.Vmi.Unmapped.{read_vector_from_va-unmapped}
use mathlib.Core.List.{Perm}
use libdwarfparser.Vmi.Memory.{shadowed, get_pages-destroy_map}
use libdwarfparser.Vmi.Pages.{IsFirst, get_pages-IsFirst}

abbrev byte_at : ℕ → ℕ
byte_at a = a % 256

abbrev page_at : ℕ → ℕ → PageInfo
page_at a flags = record {
  vaddr = a;
  paddr = a;
  size = 0x1000;
  pte_value = flags;
  pgd_value = 1;
  pdpte_value = 1;
  pml4e_value = 1;
}

-- Memory is mapped from 100 on, up to an address, and libvmi gives two bytes at a time. Page entries
-- are present and of the user if they are odd.
abbrev machine : ℕ → Libvmi
machine end = record {
  default_flags = 3;
  init = λ name flags. true;
  is_linux = true;
  pause_vm = true;
  resume_vm = true;
  pid_to_dtb = λ pid. pid;
  get_va_pages =
      λ dtb. page_at 0x3000 1 ∷ page_at 0x1000 0 ∷ page_at 0x1000 3 ∷ page_at 0x1000 5 ∷ [];
  user_supervisor = λ e. e % 2 == 1;
  get_bit = λ e bit. false;
  entry_present = λ e. e % 2 == 1;
  translate_uv2p = λ va pid. va;
  translate_kv2p = λ va. va;
  read_8_va = λ va pid. none;
  read_16_va = λ va pid. none;
  read_32_va = λ va pid. none;
  read_64_va = λ va pid. none;
  read_va = λ va pid count. bytes byte_at va (min (min count 2) (end - va));
  read_str_va = λ va pid. none;
  read_pa = λ pa count. bytes byte_at pa count;
}

machine-IsMapped : (mapped : ℕ) → IsMapped (machine (100 + mapped)) byte_at 1 100 mapped
unfolding IsMapped bytes
machine-IsMapped mapped size count asked = (
  λ here. (
    min (min count 2) (100 + mapped - (100 + size)),
    ground arith,
    ground arith,
    ground arith,
    refl,
  ),
  λ behind. let n : min (min count 2) (100 + mapped - (100 + size)) ≡ 0 = ground arith in rw n refl,
)

read_vector_from_va-eq-bytes_example :
    read_vector_from_va (machine 105) 100 7 1 false ≡ ok (bytes byte_at 100 (min 7 5))
read_vector_from_va-eq-bytes_example =
    read_vector_from_va-eq-bytes (machine 105) byte_at 1 100 5 7 (machine-IsMapped 5) (omega arith)
      (omega arith)

read_vector_from_va-unmapped_example :
    read_vector_from_va (machine 100) 100 3 1 true ≡ fail undefined
read_vector_from_va-unmapped_example =
    read_vector_from_va-unmapped (machine 100) byte_at 1 100 3 (machine-IsMapped 0) (omega arith)
      (omega arith)

get_pages-IsFirst_example :
    (pages : OrderedMap PageInfo) × (get_pages (machine 105) 1 false ≡ ok pages)
    × IsAscending pages
    × ((va : ℕ)
        → IsFirst
            (machine 105)
            1
            false
            (page_at 0x3000 1 ∷ page_at 0x1000 0 ∷ page_at 0x1000 3 ∷ page_at 0x1000 5 ∷ [])
            va
            (find pages va))
get_pages-IsFirst_example =
    get_pages-IsFirst (machine 105) 1 false (page_at 0x3000 1)
      (page_at 0x1000 0 ∷ page_at 0x1000 3 ∷ page_at 0x1000 5 ∷ []) refl

selects_pages :
    get_pages (machine 105) 1 false
    ≡ ok ((0x1000, page_at 0x1000 3) ∷ (0x3000, page_at 0x3000 1) ∷ [])
unfolding get_pages find assign
selects_pages = refl

-- The page of the flags 0 is freed at once, that of the flags 5 never.
get_pages-destroy_map_example :
    (pages : OrderedMap PageInfo) × (get_pages (machine 105) 1 false ≡ ok pages)
    × Perm
        (freed_pages (machine 105) 1 false ((machine 105).get_va_pages 1)
          ++ ((destroy_map pages).0
              ++ shadowed
                  (is_selected (machine 105) 1 false)
                  (λ va. false)
                  ((machine 105).get_va_pages 1)))
        ((machine 105).get_va_pages 1)
get_pages-destroy_map_example =
    get_pages-destroy_map (machine 105) 1 false (page_at 0x3000 1)
      (page_at 0x1000 0 ∷ page_at 0x1000 3 ∷ page_at 0x1000 5 ∷ []) refl

lost_page :
    shadowed (is_selected (machine 105) 1 false) (λ va. false) ((machine 105).get_va_pages 1)
    ≡ page_at 0x1000 5 ∷ []
unfolding shadowed is_selected is_page_superuser is_page_nx is_page_user
lost_page = refl
