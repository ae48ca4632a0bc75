-- ===== src/ListHead.antt =====
-- src/list.h: circular doubly linked lists of `struct list_head`. A list head or node is the address
-- of its two pointers; `Links` is the memory of all of them.
pub mod Chain
pub mod Insert
pub mod Remove
pub mod Splice
pub mod Move
use rmm.Base.{ℕ, Bool, ◌&&◌, ◌==◌, update, if◌then◌else◌, not}

pub record Links : Type 0 where
  pub prev : ℕ → ℕ
  pub next : ℕ → ℕ

-- `a->prev = v`
abbrev pub set_prev : ℕ → ℕ → Links → Links
set_prev a v l = record l { prev = update l.prev a v }

-- `a->next = v`
abbrev pub set_next : ℕ → ℕ → Links → Links
set_next a v l = record l { next = update l.next a v }

pub init_list_head : ℕ → Links → Links
init_list_head list l = set_prev list list (set_next list list l)

-- `__list_add`
unfoldable pub list_add_between : ℕ → ℕ → ℕ → Links → Links
list_add_between new prev next l =
    set_prev new prev (set_next prev new (set_prev next new (set_next new next l)))

pub list_add : ℕ → ℕ → Links → Links
unfolding list_add_between
list_add new head l = list_add_between new head (l.next head) l

unfoldable pub list_add_tail : ℕ → ℕ → Links → Links
unfolding list_add_between
list_add_tail new head l = list_add_between new (l.prev head) head l

-- `__list_del`
unfoldable pub list_del_between : ℕ → ℕ → Links → Links
list_del_between prev next l = set_prev next prev (set_next prev next l)

unfoldable pub list_del : ℕ → Links → Links
unfolding list_del_between
list_del entry l = list_del_between (l.prev entry) (l.next entry) l

unfoldable pub list_empty : ℕ → Links → Bool
list_empty list l = (l.next list == list) && (l.prev list == list)

-- `__list_splice`. `list->next` and `list->prev` are read before the writes.
pub list_splice_between : ℕ → ℕ → ℕ → Links → Links
list_splice_between list prev next l =
    let first = l.next list in
    let last = l.prev list in
    set_prev next last (set_next last next (set_next prev first (set_prev first prev l)))

unfoldable pub list_splice : ℕ → ℕ → Links → Links
unfolding list_empty list_splice_between
list_splice list head l =
    if not (list_empty list l) then list_splice_between list head (l.next head) l else l

pub list_splice_tail : ℕ → ℕ → Links → Links
unfolding list_empty list_splice_between
list_splice_tail list head l =
    if not (list_empty list l) then list_splice_between list (l.prev head) head l else l
