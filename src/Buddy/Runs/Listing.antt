-- ===== src/Buddy/Runs/Listing.antt =====
-- The free-list operations of kernel/src/memory/buddy.c.
use yoix.Base.{ℕ, ◌+◌, ◌^◌, ◌≤◌, ◌<◌, ◌≡◌, ◌≢◌, true, some, arith}
use yoix.Buddy.State.{Buddy, nil, max_pages, max_order}
use yoix.Buddy.Blocks.{add_free_block, remove_free_block, pop_free_block}
use yoix.Buddy.Pages.{mark, pow-pos}
use yoix.Buddy.Rep.{linked, unlinked}
use yoix.Buddy.Runs.Marking.{with_pages, mark_block_free-run}

-- The state after `buddy_add_free_block`.
abbrev pub added : Buddy → ℕ → ℕ → Buddy
added s x k = with_pages (linked s x k) (mark s.page_state x k)

pub add_free_block-run :
    (x k : ℕ) (s : Buddy)
    → k ≤ max_order
    → x + 2 ^ k ≤ max_pages
    → (s.free_list k ≢ nil → s.free_list k < max_pages)
    → add_free_block x k s ≡ some (tt, added s x k)
unfolding add_free_block
add_free_block-run x k s order room bound =
    rw (mark_block_free-run x k s order room) (ground (arith, bound, pow-pos k))

pub remove_free_block-run :
    (x k : ℕ) (s : Buddy)
    → k ≤ max_order
    → x < max_pages
    → (s.free_prev x ≡ nil → s.free_list k ≡ x)
    → (s.free_prev x ≢ nil → (s.free_prev x < max_pages) × (s.free_next (s.free_prev x) ≡ x))
    → (s.free_next x ≢ nil → s.free_next x < max_pages)
    → remove_free_block x k s ≡ some (true, unlinked s x k)
unfolding remove_free_block
remove_free_block-run x k s order lt first before after = ground arith

pub pop_free_block-run :
    (x k : ℕ) (s : Buddy)
    → k ≤ max_order
    → x < max_pages
    → s.free_list k ≡ x
    → s.free_prev x ≡ nil
    → (s.free_next x ≢ nil → s.free_next x < max_pages)
    → pop_free_block k s ≡ some (x, unlinked s x k)
unfolding pop_free_block
pop_free_block-run x k s order lt first back after = ground arith

pub pop_free_block-empty :
    (k : ℕ) (s : Buddy) → k ≤ max_order → s.free_list k ≡ nil → pop_free_block k s ≡ some (nil, s)
unfolding pop_free_block
pop_free_block-empty k s order empty = ground arith
