-- ===== src/Process/Table.antt =====
-- The table of processes: the list of all of them, the links between parents, children and
-- siblings, and their number.
use os_lab.Base.{Ptr, null, ℕ, ◌==◌, if◌then◌else◌, update}
use os_lab.Libs.Links.{Links, list_add, list_del}
use os_lab.Sched.State.{Proc, increment, decrement}

-- The nodes list_link and hash_link of a process have the address of the process, in stores of their
-- own; proc_list has the address 1.
pub record Processes : Type 0 where
  pub procs : Ptr → Proc
  pub list_links : Links
  pub hash_links : Links
  pub nr_process : ℕ

abbrev pub proc_list : Ptr
proc_list = 1

-- One field of one process is written.
abbrev pub set_cptr : (proc to : Ptr) → (Ptr → Proc) → Ptr → Proc
set_cptr proc to procs = update procs proc (record (procs proc) { cptr = to })

abbrev pub set_yptr : (proc to : Ptr) → (Ptr → Proc) → Ptr → Proc
set_yptr proc to procs = update procs proc (record (procs proc) { yptr = to })

abbrev pub set_optr : (proc to : Ptr) → (Ptr → Proc) → Ptr → Proc
set_optr proc to procs = update procs proc (record (procs proc) { optr = to })

-- proc->yptr = NULL; proc->optr = proc->parent->cptr; if (proc->optr) proc->optr->yptr = proc;
-- proc->parent->cptr = proc;
unfoldable pub adopt : Ptr → (Ptr → Proc) → Ptr → Proc
adopt proc procs =
    let older = (procs (procs proc).parent).cptr in
    let own = set_optr proc older (set_yptr proc null procs) in
    let known = if older == null then own else set_yptr older proc own in
    set_cptr (known proc).parent proc known

unfoldable pub disown : Ptr → (Ptr → Proc) → Ptr → Proc
disown proc procs =
    let older = (procs proc).optr in
    let closed = if older == null then procs else set_yptr older (procs proc).yptr procs in
    let younger = (closed proc).yptr in
    if younger == null
    then set_cptr (closed proc).parent (closed proc).optr closed
    else set_optr younger (closed proc).optr closed

unfoldable pub set_links : Ptr → Processes → Processes
unfolding adopt
set_links proc t = record t {
  procs = adopt proc t.procs;
  list_links = list_add proc_list proc t.list_links;
  nr_process = increment t.nr_process;
}

unfoldable pub remove_links : Ptr → Processes → Processes
unfolding disown
remove_links proc t = record t {
  procs = disown proc t.procs;
  list_links = list_del proc t.list_links;
  nr_process = decrement t.nr_process;
}
