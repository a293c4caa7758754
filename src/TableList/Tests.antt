-- ===== src/TableList/Tests.antt =====
-- Lists of two pages and of one.
use bez_os.TableList.Append.{Appended, append_lem}
use bez_os.TableList.Pages.{Links}
use bez_os.Prelude.{◌==◌, if◌then◌else◌, ℕ, ◌≡◌, refl, some, [], ◌∷◌, arith}
use bez_os.ControlBlock.{Memory}
use bez_os.TableList.{PageTableAllocation, count}

abbrev page_at : ℕ → PageTableAllocation
page_at block = record { block = block; slide = 4096 }

-- The pages at 8192 and 16384 are linked, and the page at 20480 is alone.
abbrev linked_pages : Memory
linked_pages = record {
  next = λ b. if b == 8192 then 16384 else 0;
  prev = λ b. if b == 8192 then 4096 else 0;
  size = λ b. 0;
  slide = λ b. 0;
}

Links-pair : Links linked_pages (page_at 8192) (page_at 8192 ∷ page_at 16384 ∷ [])
Links-pair = (refl, ground arith, refl, (refl, ground arith, refl, refl))

append_lem_example :
    Appended 3 linked_pages
      (page_at 20480)
      (page_at 8192)
      (page_at 8192 ∷ page_at 16384 ∷ [])
      (page_at 20480 ∷ [])
append_lem_example =
    append_lem 3 linked_pages (page_at 20480) (page_at 8192) (page_at 8192 ∷ page_at 16384 ∷ [])
      (page_at 20480 ∷ []) Links-pair (refl, ground arith, refl, refl) (λ b. ground arith)
      (omega arith)

two_pages : count 3 linked_pages (page_at 8192) ≡ some 2
unfolding count
two_pages = refl
