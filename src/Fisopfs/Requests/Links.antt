-- ===== src/Fisopfs/Requests/Links.antt =====
-- What the counters of fisopfs/fs.c do over the handlers of fisopfs/fisopfs.c: the link count of a
-- directory, and `inodes_amount`.
use mathlib.Core.Path.{subst}
use tps_sis_ops.Base.{
  ℕ, ◌+◌, ◌≤◌, ◌<◌, ◌≡◌, ◌≢◌, ◌⊎◌, refl, sym, ap, ◌∙◌, inl, inr, List, none, some, true, ltb,
  str_eq, str_eq_refl, eq_of_str_eq, Bool-cases, arith,
}
use tps_sis_ops.Fisopfs.Paths.{slash_str, extract_filename, extract_prev_path}
use tps_sis_ops.Fisopfs.Inode.{
  max_inodes, Inode, file_type, dir_type, Context, zero_inode, init_inode,
}
use tps_sis_ops.Fisopfs.Table.{Filesystem, Code, ret, fail, enotempty, fs_lookup, fs_create_entry}
use tps_sis_ops.Fisopfs.Handlers.{Outcome, done, fault, create, unlink, rmdir, rmdir_dir}
use tps_sis_ops.Fisopfs.Table.Invariant.{IsUsed, IsValid, Changes-IsValid, update-ne}
use tps_sis_ops.Fisopfs.Table.Lookup.{fs_lookup-IsUsed}
use tps_sis_ops.Fisopfs.Table.Keys.{removed}
use tps_sis_ops.Fisopfs.Table.Create.{ne_root_of_lookup}
use tps_sis_ops.Fisopfs.Table.Entry.{Created, same_entry, parent_ne, fs_create_entry-cases}
use tps_sis_ops.Fisopfs.Handlers.Remove.{names_slot, unlink_ok, fs_lookup-removed, rmdir_at}

-- The number of inodes that an outcome leaves, for the table `fs` before it.
abbrev amount_after : Filesystem → Outcome → ℕ
amount_after fs (done r g) = g.inodes_amount
amount_after fs fault = fs.inodes_amount

-- The counter stays, or goes up by one from another value than 256.
abbrev Grows : ℕ → ℕ → Type 0
Grows m n = (n ≡ m) ⊎ ((m ≢ max_inodes) × (n ≡ m + 1))

same_entry_refl : (path : List ℕ) → path ≢ slash_str → same_entry path path ≡ true
same_entry_refl path ne = elim (Bool-cases (str_eq path slash_str)) [
  | inl e ↦ absurd (ne (eq_of_str_eq path slash_str e))
  | inr e ↦ rw (e, str_eq_refl (extract_filename path), str_eq_refl (extract_prev_path path))
]

create-eq_entry :
    (c : Context) (fs : Filesystem) (path : List ℕ) (mode : ℕ)
    → fs_lookup fs path ≡ none
    → create c fs path mode ≡ fs_create_entry c fs path mode file_type
unfolding create
create-eq_entry c fs path mode absent = rw (absent, create) refl

-- A creation that succeeds has made an entry, in a table that is valid again.
create-Created :
    (c : Context) (fs g : Filesystem) (path : List ℕ) (mode : ℕ)
    → IsValid fs
    → fs_lookup fs path ≡ none
    → create c fs path mode ≡ (ret 0, g)
    → Created c fs path file_type g × IsValid g
create-Created c fs g path mode valid absent e =
    let e' = sym (create-eq_entry c fs path mode absent) ∙ e in
    elim (fs_create_entry-cases c fs path file_type mode valid absent) [
      | inl (_, q) ↦ let bad = sym q ∙ e' in cc bad
      | inr (inl (_, _, q)) ↦ let bad = sym q ∙ e' in cc bad
      | inr (inr (_, q, made, changes)) ↦
          subst (λ t. Created c fs path file_type t × IsValid t)
            (ap (λ (r : Code × Filesystem). r.1) e') (made, Changes-IsValid changes valid)
    ]

names_slot-entry :
    (c : Context) (fs g : Filesystem) (path q : List ℕ) (made : Created c fs path file_type g)
    → names_slot g made.slot q ≡ same_entry path q
unfolding init_inode
names_slot-entry c fs g path q made = rw made.entry refl

nlink_refuses :
    (fs : Filesystem) (i : ℕ)
    → 2 < (fs.inodes i).nlink
    → rmdir_dir fs i (fs.inodes i) ≡ (fail enotempty, fs)
unfolding rmdir_dir
nlink_refuses fs i h = let e : ltb 2 (fs.inodes i).nlink ≡ true = ground arith in rw e

module _ (c c' : Context) (fs g h : Filesystem) (path : List ℕ) (mode d : ℕ) (valid : IsValid fs)
    (absent : fs_lookup fs path ≡ none) (found : fs_lookup fs (extract_prev_path path) ≡ some d)
    (dir : (fs.inodes d).type ≡ dir_type) (links : 2 ≤ (fs.inodes d).nlink)
    (created : create c fs path mode ≡ (ret 0, g)) (unlinked : unlink c' g path ≡ (ret 0, h)) where
  -- Creating a file counts a link of its directory that unlinking does not take back: after a file
  -- was created in a directory and unlinked again, `rmdir` refuses the directory as not empty.
  pub rmdir_after_unlink : rmdir h (extract_prev_path path) ≡ (fail enotempty, h)
  rmdir_after_unlink = rw gone (rmdir_at after prev d found' dir' ∙ nlink_refuses after d links')
    where
      prev : List ℕ
      prev = extract_prev_path path

      both : Created c fs path file_type g × IsValid g
      both = create-Created c fs g path mode valid absent created

      made : Created c fs path file_type g
      made = both.0

      after : Filesystem
      after = removed g made.slot

      slot_g : fs_lookup g path ≡ some made.slot
      slot_g = made.lookup path ∙ rw (same_entry_refl path (ne_root_of_lookup fs path absent)) refl

      gone : h ≡ after
      gone = unlink_ok c' g h path made.slot slot_g unlinked

      used_g : (made.slot < max_inodes) × IsUsed g made.slot
      used_g = fs_lookup-IsUsed g path made.slot both.1 slot_g

      found_g : fs_lookup g prev ≡ some d
      found_g = made.lookup prev ∙ rw (parent_ne path) found

      found' : fs_lookup after prev ≡ some d
      found' =
          fs_lookup-removed g made.slot prev both.1 used_g.0 used_g.1
          ∙ rw (names_slot-entry c fs g path prev made, parent_ne path) found_g

      apart : d ≢ made.slot
      apart e =
          let u = (fs_lookup-IsUsed fs prev d valid found).1 in
          ground (arith, ap fs.inodes_bitmap e, made.free.free)

      same : after.inodes d ≡ record (fs.inodes d) { nlink = (fs.inodes d).nlink + 1 }
      same = update-ne g.inodes made.slot zero_inode d apart ∙ made.parent d found

      dir' : (after.inodes d).type ≡ dir_type
      dir' = ap (λ (v : Inode). v.type) same ∙ dir

      links' : 2 < (after.inodes d).nlink
      links' = omega (arith, ap (λ (v : Inode). v.nlink) same)
