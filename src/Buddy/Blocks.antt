-- ===== src/Buddy/Blocks.antt =====
-- kernel/src/memory/buddy.c: marking blocks, and the doubly linked free lists.
use yoix.Base.{
  ℕ, zero, suc, ◌+◌, ◌-◌, Bool, true, false, not, Prog, pure, ◌>>=◌, ◌>>◌, when, ◌==◌,
  if◌then◌else◌,
}
use yoix.Buddy.State.{
  Buddy, nil, free_body, allocated, reserved, max_pages, max_order, u32, block_size, read_next,
  read_prev, read_list, write_state, write_next, write_prev, write_list,
}

-- `for (index = ...; ...; index++) buddy_page_state[index] = v`, with the rounds left.
unfoldable pub fill_state : ℕ → ℕ → ℕ → Prog Buddy (Unit {0})
fill_state zero index v = pure tt
fill_state (suc left) index v = do write_state index v; fill_state left (index + 1) v

unfoldable pub reset_pages : ℕ → ℕ → Prog Buddy (Unit {0})
reset_pages zero i = pure tt
reset_pages (suc left) i = do
  write_state i reserved
  write_next i nil
  write_prev i nil
  reset_pages left (i + 1)

unfoldable pub reset_lists : ℕ → ℕ → Prog Buddy (Unit {0})
reset_lists zero order = pure tt
reset_lists (suc left) order = do write_list order nil; reset_lists left (order + 1)

unfoldable pub reset : Prog Buddy (Unit {0})
reset = do reset_pages max_pages 0; reset_lists (max_order + 1) 0

-- The loop runs from `frame + 1` to `frame + block_size`, both taken modulo 2 ^ 32.
unfoldable pub mark_block_free : ℕ → ℕ → Prog Buddy (Unit {0})
mark_block_free frame order = do
  write_state frame order
  fill_state (u32 (frame + block_size order) - u32 (frame + 1)) (u32 (frame + 1)) free_body

unfoldable pub mark_block_allocated : ℕ → ℕ → Prog Buddy (Unit {0})
mark_block_allocated frame order =
    fill_state (u32 (frame + block_size order) - frame) frame allocated

unfoldable pub add_free_block : ℕ → ℕ → Prog Buddy (Unit {0})
add_free_block frame order = do
  mark_block_free frame order
  head ← read_list order
  when (not (head == nil)) (write_prev head frame)
  write_prev frame nil
  write_next frame head
  write_list order frame

-- The first `if` of `buddy_remove_free_block`: whether it did not return false.
unfoldable pub unlink_before : ℕ → ℕ → ℕ → ℕ → Prog Buddy Bool
unlink_before previous next frame order =
    if previous == nil
    then (do
      head ← read_list order
      if head == frame then write_list order next >> pure true else pure false)
    else (do
      after ← read_next previous
      if after == frame then write_next previous next >> pure true else pure false)

unfoldable pub remove_free_block : ℕ → ℕ → Prog Buddy Bool
unfolding unlink_before
remove_free_block frame order = do
  previous ← read_prev frame
  next ← read_next frame
  found ← unlink_before previous next frame order
  if found
      then (do
        when (not (next == nil)) (write_prev next previous)
        write_next frame nil
        write_prev frame nil
        pure true)
      else pure false

unfoldable pub pop_free_block : ℕ → Prog Buddy ℕ
pop_free_block order = do
  frame ← read_list order
  if frame == nil then pure nil else (do
    next ← read_next frame
    write_list order next
    when (not (next == nil)) (write_prev next nil)
    write_next frame nil
    write_prev frame nil
    pure frame)
