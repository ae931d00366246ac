-- ===== src/Vmi/Pages.antt =====
-- The map that `VMIInstance::getPages` (libvmiwrapper/vmiinstance.cpp) makes of the pages of a
-- process.
use libdwarfparser.Prelude.{
  ℕ, ◌≡◌, refl, ◌∙◌, Bool, Option, none, some, List, [], ◌∷◌, ◌==◌, nat_eq, arith, if◌then◌else◌,
  Bool-cases, Option-cases, inl, inr, ◌&&◌, or_else, or_else-none, or_else-if, ◌≢◌, ◌⊎◌, ◌||◌, not,
  nat_beq_iff, true, false,
}
use libdwarfparser.Outcome.{ok}
use libdwarfparser.OrderedMap.{OrderedMap, find, find-assign, IsAscending, IsAscending-assign}
use libdwarfparser.Vmi.{
  PageInfo, Libvmi, is_selected, is_page_user, is_page_nx, is_page_superuser, insert_page,
  select_pages, get_pages,
}

-- The first page of a list that stands at an address and passes a test.
unfoldable pub first_page : (PageInfo → Bool) → List PageInfo → ℕ → Option PageInfo
first_page test [] va = none
first_page test (page ∷ rest) va =
    let found = first_page test rest va in
    if test page && page.vaddr == va then some page else found

module _ (v : Libvmi) (pid : ℕ) (executable : Bool) where
  find-insert_page :
      (pages : OrderedMap PageInfo) (page : PageInfo) (va : ℕ)
      → find (insert_page v pages page) va
        ≡ or_else (find pages va) (if page.vaddr == va then some page else none)
  unfolding insert_page
  find-insert_page pages page va = ground (arith, find-assign pages page.vaddr va page)

  find-select_pages :
      (list : List PageInfo) (pages : OrderedMap PageInfo) (va : ℕ)
      → find (select_pages v pid executable list pages) va
        ≡ or_else (find pages va) (first_page (is_selected v pid executable) list va)
  unfolding select_pages first_page
  find-select_pages [] pages va = or_else-none (find pages va)
  find-select_pages (page ∷ rest) pages va = elim (Bool-cases (is_selected v pid executable page)) [
    | inl taken ↦ rw taken (
        find-select_pages rest (insert_page v pages page) va
        ∙ rw (find-insert_page pages page va) (
            or_else-if (find pages va) (first_page (is_selected v pid executable) rest va)
              (page.vaddr == va) page))
    | inr passed ↦ rw passed (find-select_pages rest pages va)
  ]

  IsAscending-insert_page :
      (pages : OrderedMap PageInfo) (page : PageInfo)
      → IsAscending pages
      → IsAscending (insert_page v pages page)
  unfolding insert_page
  IsAscending-insert_page pages page ascends = elim (Option-cases (find pages page.vaddr)) [
    | inl fresh ↦ rw (fresh, IsAscending) (IsAscending-assign pages page.vaddr page ascends)
    | inr (_, there) ↦ rw (there, IsAscending) ascends
  ]

  IsAscending-select_pages :
      (list : List PageInfo) (pages : OrderedMap PageInfo)
      → IsAscending pages
      → IsAscending (select_pages v pid executable list pages)
  unfolding select_pages
  IsAscending-select_pages [] pages ascends = ascends
  IsAscending-select_pages (page ∷ rest) pages ascends =
      elim (Bool-cases (is_selected v pid executable page)) [
        | inl taken ↦ rw taken (
            IsAscending-select_pages rest (insert_page v pages page)
              (IsAscending-insert_page pages page ascends))
        | inr passed ↦ rw passed (IsAscending-select_pages rest pages ascends)
      ]

-- The page is mapped and present; it is one of a user in every table for a process, and not for the
-- kernel, which has the number 0; and no table forbids to execute it where that is asked for.
abbrev pub IsUser : Libvmi → PageInfo → Type 0
IsUser v page =
    (v.user_supervisor page.pte_value ≡ true)
    × (v.user_supervisor page.pgd_value ≡ true)
    × (v.user_supervisor page.pdpte_value ≡ true)
    × (v.user_supervisor page.pml4e_value ≡ true)

abbrev pub MayRun : Libvmi → PageInfo → Type 0
MayRun v page =
    (v.get_bit page.pte_value 63 ≡ false)
    × (v.get_bit page.pgd_value 63 ≡ false)
    × (v.get_bit page.pdpte_value 63 ≡ false)
    × (v.get_bit page.pml4e_value 63 ≡ false)

abbrev pub IsWanted : Libvmi → ℕ → Bool → PageInfo → Type 0
IsWanted v pid executable page =
    (page.pml4e_value ≢ 0)
    × (v.entry_present page.pte_value ≡ true)
    × (((pid ≡ 0) × ¬ IsUser v page) ⊎ ((pid ≢ 0) × IsUser v page))
    × ((executable ≡ false) ⊎ MayRun v page)

-- The result of a search for the first page of a list that is wanted and stands at an address.
abbrev pub IsFirst : Libvmi → ℕ → Bool → List PageInfo → ℕ → Option PageInfo → Type 0
IsFirst v pid executable [] va found = found ≡ none
IsFirst v pid executable (page ∷ rest) va found =
    (IsWanted v pid executable page × (page.vaddr ≡ va) × (found ≡ some page))
    ⊎ (¬ (IsWanted v pid executable page × (page.vaddr ≡ va))
        × IsFirst v pid executable rest va found)

module _ (v : Libvmi) (pid : ℕ) (executable : Bool) where
  user : (page : PageInfo) → is_page_user v page ≡ true → IsUser v page
  unfolding is_page_user
  user page h = ground arith

  user-back : (page : PageInfo) → IsUser v page → is_page_user v page ≡ true
  unfolding is_page_user
  user-back page h = ground arith

  runs : (page : PageInfo) → is_page_nx v page ≡ false → MayRun v page
  unfolding is_page_nx
  runs page h = ground arith

  runs-back : (page : PageInfo) → MayRun v page → is_page_nx v page ≡ false
  unfolding is_page_nx
  runs-back page h = ground arith

  selected :
      (page : PageInfo) → is_selected v pid executable page ≡ true → IsWanted v pid executable page
  unfolding is_selected is_page_superuser
  selected page h = (
    ground arith,
    ground arith,
    elim (Bool-cases (is_page_user v page)) [
      | inl owned ↦ inr (ground arith, user page owned)
      | inr other ↦ inl (ground arith, λ u. absurd (ground (arith, user-back page u)))
    ],
    elim (Bool-cases (is_page_nx v page)) [
      | inl nx ↦ inl (ground arith)
      | inr free ↦ inr (runs page free)
    ],
  )

  wanted :
      (page : PageInfo) → IsWanted v pid executable page → is_selected v pid executable page ≡ true
  unfolding is_selected is_page_superuser
  wanted page (mapped, present, access, run) =
      let run_test : (not executable || not (is_page_nx v page)) ≡ true = elim run [
        | inl any ↦ ground arith
        | inr may ↦ ground (arith, runs-back page may)
      ] in
      elim access [
        | inl (kernel, other) ↦ elim (Bool-cases (is_page_user v page)) [
          | inl owned ↦ absurd (other (user page owned))
          | inr super ↦ ground (arith, run_test, nat_beq_iff page.pml4e_value 0)
        ]
        | inr (process, owned) ↦
            ground (arith, user-back page owned, run_test, nat_beq_iff page.pml4e_value 0)
      ]

  first_page-IsFirst :
      (list : List PageInfo) (va : ℕ)
      → IsFirst v pid executable list va (first_page (is_selected v pid executable) list va)
  unfolding first_page
  first_page-IsFirst [] va = refl
  first_page-IsFirst (page ∷ rest) va =
      elim (Bool-cases (is_selected v pid executable page && page.vaddr == va)) [
        | inl both ↦ rw both (inl (selected page (ground arith), ground arith, refl))
        | inr other ↦
            rw other
              (inr (λ w. absurd (ground (arith, wanted page w.0, w.1)), first_page-IsFirst rest va))
      ]

-- Where libvmi gives some pages, `getPages` returns a map that holds, at each address and in the
-- order of the addresses, the first page of the list there that is wanted: one that is mapped and
-- present, that is a user's in every table where the process is not 0 and is not where it is, and
-- that no table forbids to execute, if `executable` is set.
pub get_pages-IsFirst :
    (v : Libvmi) (pid : ℕ) (executable : Bool) (page : PageInfo) (rest : List PageInfo)
    → v.get_va_pages (v.pid_to_dtb (if pid == 0 then 1 else pid)) ≡ page ∷ rest
    → (pages : OrderedMap PageInfo) × (get_pages v pid executable ≡ ok pages)
      × IsAscending pages
      × ((va : ℕ) → IsFirst v pid executable (page ∷ rest) va (find pages va))
unfolding get_pages find
get_pages-IsFirst v pid executable page rest given = (
  select_pages v pid executable (page ∷ rest) [],
  rw (given) refl,
  IsAscending-select_pages v pid executable (page ∷ rest) [] tt,
  λ va.
      rw (find-select_pages v pid executable (page ∷ rest) [] va)
        (first_page-IsFirst v pid executable (page ∷ rest) va),
)
