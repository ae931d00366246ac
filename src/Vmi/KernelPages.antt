-- ===== src/Vmi/KernelPages.antt =====
-- `VMIInstance::printKernelPages` (libvmiwrapper/vmiinstance.cpp): what it prints, and the pages that
-- it frees.
use libdwarfparser.Prelude.{
  ◌/◌, ◌^◌, Bool, true, false, not, ◌&&◌, List, [], ◌∷◌, ◌++◌, ◌==◌, nat_eq, if◌then◌else◌,
}
use libdwarfparser.Output.{Line, text, hex, dec}
use libdwarfparser.Vmi.{PageInfo, Libvmi, is_page_user, is_page_superuser, is_page_nx}

module _ (v : Libvmi) where
  -- The test of the page: present, and not in the mapping of the physical memory.
  unfoldable pub is_listed : PageInfo → Bool
  is_listed page = v.entry_present page.pte_value && not (page.vaddr / 2 ^ 40 == 0x88)

  unfoldable pub page_line : PageInfo → Line
  unfolding is_page_superuser is_page_nx
  page_line page =
      text "Page at "
      ∷ hex page.vaddr
      ∷ text " : "
      ∷ hex page.paddr
      ∷ text " - "
      ∷ text (if is_page_superuser v page then "S" else "U")
      ∷ text ", "
      ∷ text (if is_page_nx v page then "NX" else "X")
      ∷ text " "
      ∷ text "Page size: "
      ∷ dec page.size
      ∷ []

  -- One round of the loop: the lines that it prints, and whether it comes to `free(item)`.
  unfoldable pub print_page : PageInfo → List Line × Bool
  unfolding is_listed is_page_user page_line
  print_page page =
      if page.pml4e_value == 0
      then ((text "l4_v is null" ∷ []) ∷ [], true)
      else if not (is_listed page)
      then ([], true)
      else if is_page_user v page
      then ([], false)
      else (page_line page ∷ [], true)

  unfoldable pub print_pages : List PageInfo → List Line × List PageInfo
  unfolding print_page
  print_pages [] = ([], [])
  print_pages (page ∷ rest) =
      let (lines, free) = print_page page in
      let (more, freed) = print_pages rest in (lines ++ more, if free then page ∷ freed else freed)

  abbrev pub got_pages : List PageInfo → List Line
  got_pages [] = []
  got_pages (page ∷ rest) = (text "Got Pages" ∷ []) ∷ []

  unfoldable pub print_kernel_pages : List Line × List PageInfo
  unfolding print_pages
  print_kernel_pages =
      let dtb = v.pid_to_dtb 1 in
      let pages = v.get_va_pages dtb in
      let (lines, freed) = print_pages pages in
      ((text "Init dtb is at " ∷ hex dtb ∷ []) ∷ (got_pages pages ++ lines), freed)
