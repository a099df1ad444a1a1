-- ===== src/Process/Links.antt =====
-- `set_links` and `remove_links`: the list of all processes and the children of each.
use os_lab.Base.{
  Ptr, null, ◌+◌, ◌<◌, ◌^◌, ◌≡◌, ◌≢◌, false, List, ◌∷◌, ◌++◌, has, length, length-append, arith,
}
use os_lab.Libs.Links.Ring.{Ring}
use os_lab.Libs.Links.Edit.{list_add-Ring, list_del-Ring}
use os_lab.Process.Table.{Processes, proc_list, set_links, remove_links}
use os_lab.Process.Family.{Children}
use os_lab.Process.Family.Adopt.{adopt-Children, adopt-Children_other}
use os_lab.Process.Family.Disown.{disown-Children, disown-Children_other}

-- The processes of the table are `all`, the newest first.
pub record IsTable (t : Processes) (all : List Ptr) : Type 0 where
  pub ring : Ring t.list_links proc_list all
  pub counted : t.nr_process ≡ length all
  pub few : length all < 2 ^ 31

-- With fewer than 2 ^ 31 - 1 processes in the table, set_links puts a process that is not NULL and
-- not in the table at its front and makes it the youngest child of its parent; any other process
-- keeps its children.
pub set_links-Children :
    (t : Processes) (all : List Ptr) (p : Ptr) (xs : List Ptr) (e p' : Ptr) (ys : List Ptr)
    → IsTable t all
    → length all + 1 < 2 ^ 31
    → has e (proc_list ∷ all) ≡ false
    → e ≢ null
    → (t.procs e).parent ≡ p
    → Children t.procs p xs
    → has e xs ≡ false
    → Children t.procs p' ys
    → has e ys ≡ false
    → p' ≢ p
    → IsTable (set_links e t) (e ∷ all)
      × Children (set_links e t).procs p (e ∷ xs)
      × Children (set_links e t).procs p' ys
unfolding set_links
set_links-Children t all p xs e p' ys is room out ne born c new c' new' other = (
  record {
    ring = list_add-Ring all e is.ring out;
    counted = omega (arith, is.counted);
    few = omega arith;
  },
  adopt-Children t.procs p xs e c born new ne,
  adopt-Children_other t.procs p xs e p' ys c born new c' other new',
)

-- remove_links takes a process of the table out of it and out of its parent's children, wherever
-- it stands among them, and keeps the order of the others; any other process keeps its children.
pub remove_links-Children :
    (t : Processes) (before after : List Ptr) (p : Ptr) (xs : List Ptr) (e : Ptr) (ys : List Ptr)
    (p' : Ptr) (zs : List Ptr)
    → IsTable t (before ++ e ∷ after)
    → Children t.procs p (xs ++ e ∷ ys)
    → Children t.procs p' zs
    → p' ≢ p
    → IsTable (remove_links e t) (before ++ after)
      × Children (remove_links e t).procs p (xs ++ ys)
      × Children (remove_links e t).procs p' zs
unfolding remove_links
remove_links-Children t before after p xs e ys p' zs is c c' other = (
  record {
    ring = list_del-Ring before e after is.ring;
    counted =
        omega
          (arith, is.counted, is.few, length-append before (e ∷ after), length-append before after);
    few = omega (arith, is.few, length-append before (e ∷ after), length-append before after);
  },
  disown-Children t.procs p xs e ys c,
  disown-Children_other t.procs p xs e ys p' zs c c' other,
)
