-- ===== src/Libs/Links.antt =====
-- libs/list.h: circular doubly linked lists. A store of links holds the two pointers of each node.
pub mod Ring
pub mod Edit
pub mod Detach
use os_lab.Base.{Ptr, Bool, update, ◌==◌}

pub record Links : Type 0 where
  pub prev : Ptr → Ptr
  pub next : Ptr → Ptr

unfoldable pub list_init : Ptr → Links → Links
list_init elm l = record { prev = update l.prev elm elm; next = update l.next elm elm }

-- `__list_add`: prev->next = next->prev = elm; elm->next = next; elm->prev = prev.
unfoldable pub list_add_between : (elm prev next : Ptr) → Links → Links
list_add_between elm prev next l = record {
  prev = update (update l.prev next elm) elm prev;
  next = update (update l.next prev elm) elm next;
}

-- `__list_del`
unfoldable pub list_del_between : (prev next : Ptr) → Links → Links
list_del_between prev next l = record {
  prev = update l.prev next prev;
  next = update l.next prev next;
}

unfoldable pub list_next : Links → Ptr → Ptr
list_next l elm = l.next elm

unfoldable pub list_prev : Links → Ptr → Ptr
list_prev l elm = l.prev elm

unfoldable pub list_add_before : (listelm elm : Ptr) → Links → Links
list_add_before listelm elm l = list_add_between elm (l.prev listelm) listelm l

unfoldable pub list_add_after : (listelm elm : Ptr) → Links → Links
list_add_after listelm elm l = list_add_between elm listelm (l.next listelm) l

unfoldable pub list_add : (listelm elm : Ptr) → Links → Links
unfolding list_add_after
list_add listelm elm l = list_add_after listelm elm l

unfoldable pub list_del : Ptr → Links → Links
list_del listelm l = list_del_between (l.prev listelm) (l.next listelm) l

unfoldable pub list_del_init : Ptr → Links → Links
list_del_init listelm l = list_init listelm (list_del listelm l)

unfoldable pub list_empty : Links → Ptr → Bool
list_empty l list = l.next list == list
