-- ===== src/Sysfile/Link/Ops.antt =====
-- The operations that link, unlink and the creation of a file in OperatingSystem/HW5/sysfile.c begin and
-- end.
use cpp.Prelude.{ℕ, zero, suc, ◌+◌, ◌==◌, ◌||◌, not, ltb, ◌^◌, Option, none, some}
use cpp.Prelude.Int.{ℤ}
use cpp.Fs.Icache.{inode_at, ilock, iunlock}
use cpp.Fs.Content.{t_dir}
use cpp.Sysfile.{Env}
use cpp.Sysfile.Ops.{
  Runs-end, Runs, Runs-bind, Runs-if, Runs-pure, Runs-start, Runs-lift, Runs-option, Runs-cwd,
  Runs-pair, Runs-panic,
}
use cpp.Sysfile.Link

pub leave_lem : {n : ℕ} (i : ℕ) (r : ℤ) → Runs (n + 1) n (Link.leave i r)
unfolding Link.leave
leave_lem i r = Runs-bind (Runs-lift _) (λ _. Runs-end _)

pub link_more_lem : {n : ℕ} (i : ℕ) → Runs n n (Link.link_more i)
unfolding Link.link_more
link_more_lem i = Runs-bind (Runs-lift _) (λ _. Runs-lift _)

pub link_less_lem : {n : ℕ} (i : ℕ) → Runs n n (Link.link_less i)
unfolding Link.link_less
link_less_lem i = Runs-bind (Runs-lift _) (λ _. Runs-lift _)

pub unlink_bad_lem : {n : ℕ} (i : ℕ) → Runs (n + 1) n (Link.unlink_bad i)
unfolding Link.unlink_bad
unlink_bad_lem i = Runs-bind (Runs-lift _) (λ _. Runs-bind (link_less_lem _) (λ _. leave_lem _ _))

pub lookup_parent_lem : {n : ℕ} (v : Env) (path : ℕ) → Runs n n (Link.lookup_parent v path)
unfolding Link.lookup_parent
lookup_parent_lem v path = Runs-bind Runs-cwd (λ _. Runs-lift _)

pub lookup_path_lem : {n : ℕ} (v : Env) (path : ℕ) → Runs n n (Link.lookup_path v path)
unfolding Link.lookup_path
lookup_path_lem v path = Runs-bind Runs-cwd (λ _. Runs-lift _)

pub add_entry_lem : {n : ℕ} (v : Env) (dp i : ℕ) → Runs n n (Link.add_entry v dp i)
unfolding Link.add_entry
add_entry_lem v dp i = Runs-bind (Runs-lift _) (λ _.
    Runs-bind (Runs-lift _) (λ _. Runs-if _ (Runs-bind (Runs-lift _) (λ _. Runs-pure)) Runs-pure))

pub link_at_lem : {n : ℕ} (v : Env) (i new : ℕ) → Runs (n + 1) n (Link.link_at v i new)
unfolding Link.link_at
link_at_lem v i new = Runs-bind (lookup_parent_lem _ _) (λ x.
    Runs-option x (unlink_bad_lem _) (λ dp. Runs-bind (Runs-lift _) (λ _.
      Runs-bind (add_entry_lem _ _ _) (λ b.
        Runs-bind (Runs-lift _)
          (λ _. Runs-if b (Runs-bind (Runs-lift _) (λ _. Runs-end _)) (unlink_bad_lem _))))))

pub sys_link_lem : {n : ℕ} (v : Env) (old new : Option ℕ) → Runs n n (Link.sys_link v old new)
unfolding Link.sys_link
sys_link_lem v none new = Runs-pure
sys_link_lem v (some old) none = Runs-pure
sys_link_lem v (some old) (some new) = Runs-bind Runs-start (λ _.
    Runs-bind (lookup_path_lem v old) (λ x. Runs-option x (Runs-end _) (λ i.
      Runs-bind (Runs-lift (ilock i)) (λ _. Runs-bind (Runs-lift (inode_at i)) (λ ip.
        Runs-if (ip.type == t_dir) (leave_lem _ _) (
          Runs-bind (link_more_lem i)
            (λ _. Runs-bind (Runs-lift (iunlock i)) (λ _. link_at_lem v i new))))))))

is_empty_from_lem :
    {m : ℕ} (n : ℕ) (v : Env) (dp off : ℕ) → Runs m m (Link.is_empty_from n v dp off)
unfolding Link.is_empty_from
is_empty_from_lem zero v dp off = Runs-pure
is_empty_from_lem (suc n) v dp off = Runs-bind (Runs-lift _) (λ _.
    Runs-if _ (Runs-bind (Runs-lift _) (λ _. Runs-if _ (is_empty_from_lem n v dp _) Runs-pure))
      Runs-pure)

isdirempty_lem : {m : ℕ} (v : Env) (dp : ℕ) → Runs m m (Link.isdirempty v dp)
unfolding Link.isdirempty
isdirempty_lem v dp = Runs-bind (Runs-lift _) (λ _. is_empty_from_lem _ _ _ _)

clear_entry_lem : {n : ℕ} (v : Env) (dp off : ℕ) → Runs n n (Link.clear_entry v dp off)
unfolding Link.clear_entry
clear_entry_lem v dp off =
    Runs-bind (Runs-lift _) (λ _. Runs-bind (Runs-lift _) (λ _. Runs-if _ Runs-pure Runs-panic))

remove_entry_lem : {n : ℕ} (v : Env) (dp i off : ℕ) → Runs (n + 1) n (Link.remove_entry v dp i off)
unfolding Link.remove_entry
remove_entry_lem v dp i off = Runs-bind (clear_entry_lem _ _ _) (λ _. Runs-bind (Runs-lift _) (λ _.
    Runs-bind (Runs-if _ (link_less_lem _) Runs-pure)
      (λ _. Runs-bind (Runs-lift _) (λ _. Runs-bind (link_less_lem _) (λ _. leave_lem _ _)))))

is_in_use_lem : {n : ℕ} (v : Env) (i : ℕ) → Runs n n (Link.is_in_use v i)
unfolding Link.is_in_use
is_in_use_lem v i = Runs-bind (Runs-lift (inode_at i)) (λ ip.
    Runs-if ((ip.nlink == 0) || not (ltb ip.nlink (2 ^ 15))) Runs-panic
      (Runs-if (ip.type == t_dir) (Runs-bind (isdirempty_lem _ _) (λ _. Runs-pure)) Runs-pure))

unlink_name_lem : {n : ℕ} (v : Env) (dp : ℕ) → Runs (n + 1) n (Link.unlink_name v dp)
unfolding Link.unlink_name
unlink_name_lem v dp = Runs-bind (Runs-lift _) (λ x. Runs-pair x (leave_lem _ _) (λ i off.
    Runs-bind (Runs-lift _) (λ _.
      Runs-bind (is_in_use_lem _ _) (λ _.
        Runs-if _ (Runs-bind (Runs-lift _) (λ _. leave_lem _ _)) (remove_entry_lem _ _ _ _)))))

pub sys_unlink_lem : {n : ℕ} (v : Env) (path : Option ℕ) → Runs n n (Link.sys_unlink v path)
unfolding Link.sys_unlink Link.is_dots
sys_unlink_lem v none = Runs-pure
sys_unlink_lem v (some path) = Runs-bind Runs-start (λ _. Runs-bind (lookup_parent_lem _ _) (λ x.
    Runs-option x (Runs-end _) (λ dp.
      Runs-bind (Runs-lift _)
        (λ _. Runs-bind (Runs-lift _) (λ _. Runs-if _ (leave_lem _ _) (unlink_name_lem _ _))))))

create_found_lem : {n : ℕ} (type i : ℕ) → Runs n n (Link.create_found type i)
unfolding Link.create_found
create_found_lem type i = Runs-bind (Runs-lift _) (λ _.
    Runs-bind (Runs-lift _) (λ _. Runs-if _ Runs-pure (Runs-bind (Runs-lift _) (λ _. Runs-pure))))

must_link_lem : {n : ℕ} (v : Env) (dp name inum : ℕ) → Runs n n (Link.must_link v dp name inum)
unfolding Link.must_link
must_link_lem v dp name inum = Runs-bind (Runs-lift _) (λ _. Runs-if _ Runs-pure Runs-panic)

make_dots_lem : {n : ℕ} (v : Env) (dp i : ℕ) → Runs n n (Link.make_dots v dp i)
unfolding Link.make_dots
make_dots_lem v dp i = Runs-bind (link_more_lem _) (λ _. Runs-bind (Runs-lift _) (λ _.
    Runs-bind (must_link_lem _ _ _ _) (λ _. Runs-bind (Runs-lift _) (λ _. must_link_lem _ _ _ _))))

create_new_lem : {n : ℕ} (v : Env) (dp type x y : ℕ) → Runs n n (Link.create_new v dp type x y)
unfolding Link.create_new
create_new_lem v dp type x y = Runs-bind (Runs-lift _) (λ _. Runs-bind (Runs-lift _) (λ _.
    Runs-bind (Runs-lift _) (λ _. Runs-bind (Runs-lift _) (λ _. Runs-bind (Runs-lift _) (λ _.
      Runs-bind (Runs-if _ (make_dots_lem _ _ _) Runs-pure) (λ _. Runs-bind (Runs-lift _) (λ _.
        Runs-bind (must_link_lem _ _ _ _) (λ _. Runs-bind (Runs-lift _) (λ _. Runs-pure)))))))))

pub create_lem : {n : ℕ} (v : Env) (path type x y : ℕ) → Runs n n (Link.create v path type x y)
unfolding Link.create
create_lem v path type x y = Runs-bind (lookup_parent_lem _ _) (λ p. Runs-option p Runs-pure (λ dp.
    Runs-bind (Runs-lift _) (λ _. Runs-bind (Runs-lift _) (λ f.
      Runs-pair f (create_new_lem _ _ _ _ _)
        (λ i _. Runs-bind (Runs-lift _) (λ _. create_found_lem _ _))))))
