-- ===== src/TableList.antt =====
-- sources/kernel/include/memory/detail/page_table_allocation.hpp,
-- sources/kernel/include/memory/detail/table_list.hpp and sources/kernel/src/memory/detail/table_list.cpp:
-- lists of pages that are linked through their own first two words. These are the words in which the
-- control block of a free block has `next` and `prev`, so both kinds of list share one memory.
pub mod Pages
pub mod Runs
pub mod New
pub mod Append
pub mod Tests
use bez_os.Prelude.{
  ◌==◌, if◌then◌else◌, ◌>>=◌, ℕ, zero, suc, ◌+◌, ◌-◌, ◌%◌, ◌^◌, Option, none, some,
}
use bez_os.ControlBlock.{Memory, set_next, set_prev}
use bez_os.TableAllocator.{mul_word, set_block}
use bez_os.Range.{add_word}

pub record PageTableAllocation : Type 0 where
  pub block : ℕ
  pub slide : ℕ

-- `x64::kPageSize`
abbrev pub page_size : ℕ
page_size = 4096

-- An allocation of no page; a list without pages is this too.
abbrev pub no_page : PageTableAllocation
no_page = record { block = 0; slide = 0 }

pub offset : PageTableAllocation → ℕ → PageTableAllocation
offset a index = record a { block = add_word a.block (mul_word index page_size) }

-- `setNext`
abbrev pub set_next_page : Memory → PageTableAllocation → PageTableAllocation → Memory
set_next_page m a next = set_prev (set_next m a.block next.block) a.block next.slide

abbrev pub get_next : Memory → PageTableAllocation → PageTableAllocation
get_next m a = record { block = m.next a.block; slide = m.prev a.block }

-- The loop of the constructor of `PageTableList` from the page `i` on.
pub link_pages : ℕ → Memory → PageTableAllocation → ℕ → Memory
link_pages zero m a i = m
link_pages (suc n) m a i = link_pages n (set_next_page m (offset a i) (offset a (suc i))) a (suc i)

-- The constructor of `PageTableList`; the list is its first page.
pub new_list : Memory → PageTableAllocation → ℕ → Memory × PageTableAllocation
new_list m a count =
    (set_next_page (link_pages (count - 1) m a 0) (offset a (count - 1)) no_page, a)

abbrev pub push : Memory → (list page : PageTableAllocation) → Memory × PageTableAllocation
push m list page = (set_next_page m page list, page)

-- `push` of the pages of an allocation from the page `i` on.
pub push_pages : ℕ → Memory → (list a : PageTableAllocation) → ℕ → Memory × PageTableAllocation
push_pages zero m list a i = (m, list)
push_pages (suc n) m list a i =
    let (m', list') = push m list (offset a i) in push_pages n m' list' a (suc i)

-- The list without its first page, and that page.
abbrev pub drain : Memory → PageTableAllocation → PageTableAllocation × PageTableAllocation
drain m list = if list.block == 0 then (list, no_page) else (get_next m list, list)

-- `none` is a run out of fuel.
pub append : ℕ → Memory → (list extra : PageTableAllocation) → Option (Memory × PageTableAllocation)
append zero m list extra = none
append (suc fuel) m list extra =
    let (extra', page) = drain m extra in
    let (m', list') = push m list page in
    let rest = append fuel m' list' extra' in if page.block == 0 then some (m, list) else rest

-- `next`: the memory, the list and the page; `none` is the check that fails. The page is zeroed.
pub next :
    Memory → PageTableAllocation → Option (Memory × PageTableAllocation × PageTableAllocation)
next m list =
    if list.block == 0 then none else some (set_block m list.block 0 0 0 0, get_next m list, list)

pub count : ℕ → Memory → PageTableAllocation → Option ℕ
count zero m list = none
count (suc fuel) m list =
    let rest = count fuel m (get_next m list) in
    if list.block == 0 then some 0 else rest >>= λ (n : ℕ). some ((n + 1) % 2 ^ 64)
