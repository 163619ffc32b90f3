-- ===== src/Linked.antt =====
-- core/os_list.c: the intrusive doubly linked list, on a store of nodes and list heads.
pub mod Links
pub mod Relink
pub mod Remove
pub mod Insert
pub mod Run
use ahura_kernel.Prelude.{ℕ, Bool, true, not, ◌&&◌, ◌||◌, ◌==◌, if◌then◌else◌, update}

-- `os_list_node_t`; a pointer is an address, and 0 is NULL.
pub record Node : Type 0 where
  pub next : ℕ
  pub prev : ℕ

-- `os_list_t`
pub record Ends : Type 0 where
  pub head : ℕ
  pub tail : ℕ

-- The nodes and the lists by address.
pub record Store : Type 0 where
  pub node : ℕ → Node
  pub ends : ℕ → Ends

-- `node->next = q`, `node->prev = q`, `list->head = q` and `list->tail = q`
abbrev pub set_next : ℕ → ℕ → Store → Store
set_next n q s = record s { node = update s.node n (record (s.node n) { next = q }) }

abbrev pub set_prev : ℕ → ℕ → Store → Store
set_prev n q s = record s { node = update s.node n (record (s.node n) { prev = q }) }

abbrev pub set_head : ℕ → ℕ → Store → Store
set_head l q s = record s { ends = update s.ends l (record (s.ends l) { head = q }) }

abbrev pub set_tail : ℕ → ℕ → Store → Store
set_tail l q s = record s { ends = update s.ends l (record (s.ends l) { tail = q }) }

-- os_list_init
unfoldable pub list_init : ℕ → Store → Store
list_init l s = if not (l == 0) then set_tail l 0 (set_head l 0 s) else s

-- os_list_is_empty
unfoldable pub is_empty : ℕ → Store → Bool
is_empty l s = if not (l == 0) then (s.ends l).head == 0 else true

-- os_list_push_back
unfoldable pub push_back : (l n : ℕ) → Store → Store
push_back l n s =
    let s1 = set_prev n (s.ends l).tail (set_next n 0 s) in
    let tail = (s1.ends l).tail in
    let s2 = (if not (tail == 0) then set_next tail n s1 else set_head l n s1) in
    if not (l == 0) && not (n == 0) then set_tail l n s2 else s

-- os_list_pop_front, with the node that it returns
unfoldable pub pop_front : ℕ → Store → ℕ × Store
pop_front l s =
    let n = (s.ends l).head in
    let head = (s.node n).next in
    let s1 = set_head l head s in
    let s2 = (if not (head == 0) then set_prev head 0 s1 else set_tail l 0 s1) in
    if not (l == 0) && not (n == 0) then (n, set_prev n 0 (set_next n 0 s2)) else (0, s)

-- Whether os_list_remove takes the node for a linked one.
abbrev pub is_linked : (l n : ℕ) → Store → Bool
is_linked l n s = not ((s.node n).prev == 0) || (not ((s.node n).next == 0) || (s.ends l).head == n)

-- The two halves of os_list_remove: what follows and what precedes the node.
unfoldable pub unlink_forward : (l n : ℕ) → Store → Store
unlink_forward l n s =
    if not ((s.node n).prev == 0)
    then set_next (s.node n).prev (s.node n).next s
    else set_head l (s.node n).next s

unfoldable pub unlink_backward : (l n : ℕ) → Store → Store
unlink_backward l n s =
    if not ((s.node n).next == 0)
    then set_prev (s.node n).next (s.node n).prev s
    else set_tail l (s.node n).prev s

-- os_list_remove
unfoldable pub list_remove : (l n : ℕ) → Store → Store
unfolding unlink_forward unlink_backward
list_remove l n s =
    if not (l == 0) && (not (n == 0) && is_linked l n s)
    then set_prev n 0 (set_next n 0 (unlink_backward l n (unlink_forward l n s)))
    else s

-- os_list_insert_before at a node
unfoldable pub link_before : (l position n : ℕ) → Store → Store
link_before l position n s =
    let s1 = set_prev n (s.node position).prev (set_next n position s) in
    let prev = (s1.node position).prev in
    set_prev position n (if not (prev == 0) then set_next prev n s1 else set_head l n s1)

-- os_list_insert_before
unfoldable pub insert_before : (l position n : ℕ) → Store → Store
unfolding push_back link_before
insert_before l position n s =
    if not (l == 0) && not (n == 0)
    then if position == 0 then push_back l n s else link_before l position n s
    else s
