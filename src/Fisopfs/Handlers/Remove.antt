-- ===== src/Fisopfs/Handlers/Remove.antt =====
-- `fisopfs_unlink` and `fisopfs_rmdir` of fisopfs/fisopfs.c in a valid table.
use tps_sis_ops.Base.{
  ℕ, ◌-◌, ◌≤◌, ◌<◌, ◌≡◌, ◌≢◌, ◌⊎◌, refl, sym, ap, ◌∙◌, inl, inr, List, none, some, Bool, true,
  false, not, ◌&&◌, ◌==◌, ltb, if◌then◌else◌, str_eq, str_eq_iff, eq_of_str_eq, Bool-cases,
  Option-cases, arith,
}
use tps_sis_ops.Fisopfs.Paths.{slash_str, extract_filename, extract_prev_path}
use tps_sis_ops.Fisopfs.Inode.{
  max_inodes, Inode, InodeType, file_type, dir_type, Context, zero_inode,
}
use tps_sis_ops.Fisopfs.Table.{
  Filesystem, Code, ret, fail, eisdir, enotdir, eacces, eperm, enotempty, fs_lookup,
  modify_nlink_path,
}
use tps_sis_ops.Fisopfs.Table.Invariant.{
  IsUsed, IsValid, Changes, Changes-trans, Changes-IsValid, one, here, next, release, wipe,
  update_self, update-ne,
}
use tps_sis_ops.Fisopfs.Table.Lookup.{fs_lookup-zero, fs_lookup-IsUsed, fs_lookup-root}
use tps_sis_ops.Fisopfs.Table.Keys.{fs_lookup-unused, removed, same_key, find_key-removed}
use tps_sis_ops.Fisopfs.Table.Create.{
  modify_nlink_path-Changes, modify_nlink_path-bitmap, modify_nlink_path-down,
  modify_nlink_path-other, fs_lookup-modify_nlink_path,
}
use tps_sis_ops.Fisopfs.Table.Entry.{parent_ne}
use tps_sis_ops.Fisopfs.Handlers.{free_slot, unlink, unlink_file, rmdir, rmdir_dir}

-- A slot whose inode does not have the root's type or path is not slot 0.
not_zero_of_file : (fs : Filesystem) (i : ℕ) → IsValid fs → (fs.inodes i).type ≡ file_type → i ≢ 0
not_zero_of_file fs i valid file e =
    let t = ap (λ (j : ℕ). (fs.inodes j).type) e in cc (t, file, valid.root.root_type)

not_zero_of_path :
    (fs : Filesystem) (i : ℕ) → IsValid fs → str_eq (fs.inodes i).path slash_str ≡ false → i ≢ 0
not_zero_of_path fs i valid ne e =
    let p = ap (λ (j : ℕ). (fs.inodes j).path) e ∙ valid.root.root_path in
    let t = (str_eq_iff (fs.inodes i).path slash_str).1 p in cc (t, ne)

unlink_file-Changes :
    (c : Context) (fs : Filesystem) (i : ℕ)
    → i ≢ 0
    → Changes fs (unlink_file c fs i (fs.inodes i)).1
unfolding unlink_file
unlink_file-Changes c fs i ne =
    elim (Bool-cases (not (c.caller_uid == 0) && not ((fs.inodes i).uid == c.caller_uid))) [
      | inl denied ↦ rw denied here
      | inr allowed ↦
          rw allowed (next (one (release i ne)) (wipe i (update_self fs.inodes_bitmap i 0) ne))
    ]

module _ (c : Context) (fs : Filesystem) (path : List ℕ) (i : ℕ)
    (found : fs_lookup fs path ≡ some i) where
  unlink_at : (fs.inodes i).type ≡ file_type → unlink c fs path ≡ unlink_file c fs i (fs.inodes i)
  unfolding unlink
  unlink_at file = rw (found, unlink) (simp file)

  unlink_dir : (fs.inodes i).type ≡ dir_type → unlink c fs path ≡ (fail eisdir, fs)
  unfolding unlink
  unlink_dir dir = rw (found, unlink) (simp dir)

module _ (fs : Filesystem) (path : List ℕ) (i : ℕ) (found : fs_lookup fs path ≡ some i) where
  pub rmdir_at : (fs.inodes i).type ≡ dir_type → rmdir fs path ≡ rmdir_dir fs i (fs.inodes i)
  unfolding rmdir
  rmdir_at dir = rw (found, rmdir) (simp dir)

  rmdir_file : (fs.inodes i).type ≡ file_type → rmdir fs path ≡ (fail enotdir, fs)
  unfolding rmdir
  rmdir_file file = rw (found, rmdir) (simp file)

pub InodeType-cases : (t : InodeType) → (t ≡ file_type) ⊎ (t ≡ dir_type)
InodeType-cases file_type = inl refl
InodeType-cases dir_type = inr refl

pub unlink-Changes :
    (c : Context) (fs : Filesystem) (path : List ℕ) → IsValid fs → Changes fs (unlink c fs path).1
unfolding unlink
unlink-Changes c fs path valid = elim (Option-cases (fs_lookup fs path)) [
  | inl e ↦ rw (e, unlink) here
  | inr (i, e) ↦ elim (InodeType-cases (fs.inodes i).type) [
    | inl t ↦
        rw (unlink_at c fs path i e t) (unlink_file-Changes c fs i (not_zero_of_file fs i valid t))
    | inr t ↦ rw (unlink_dir c fs path i e t) here
  ]
]

rmdir_dir-Changes :
    (fs : Filesystem) (i : ℕ) → IsValid fs → Changes fs (rmdir_dir fs i (fs.inodes i)).1
unfolding rmdir_dir
rmdir_dir-Changes fs i valid = elim (Bool-cases (ltb 2 (fs.inodes i).nlink)) [
  | inl full ↦ rw full here
  | inr empty ↦ elim (Bool-cases (str_eq (fs.inodes i).path slash_str)) [
    | inl is_root ↦ rw (empty, is_root) here
    | inr ne ↦
        let nz = not_zero_of_path fs i valid ne in
        let freed = free_slot fs i in
        let prev = (fs.inodes i).prev_path in
        let start : Changes fs freed = one (release i nz) in
        let counted = modify_nlink_path-Changes freed prev false (Changes-IsValid start valid) in
        let unused =
          modify_nlink_path-bitmap freed prev false i ∙ update_self fs.inodes_bitmap i 0 in
        rw (empty, ne) (next (Changes-trans start counted) (wipe i unused nz))
  ]
]

pub rmdir-Changes : (fs : Filesystem) (path : List ℕ) → IsValid fs → Changes fs (rmdir fs path).1
unfolding rmdir
rmdir-Changes fs path valid = elim (Option-cases (fs_lookup fs path)) [
  | inl e ↦ rw (e, rmdir) here
  | inr (i, e) ↦ elim (InodeType-cases (fs.inodes i).type) [
    | inl t ↦ rw (rmdir_file fs path i e t) here
    | inr t ↦ rw (rmdir_at fs path i e t) (rmdir_dir-Changes fs i valid)
  ]
]

-- An unlink that succeeds was of a file, and has cleared its slot.
pub unlink_ok :
    (c : Context) (fs g : Filesystem) (path : List ℕ) (i : ℕ)
    → fs_lookup fs path ≡ some i
    → unlink c fs path ≡ (ret 0, g)
    → g ≡ removed fs i
unfolding unlink_file
unlink_ok c fs g path i found e = elim (InodeType-cases (fs.inodes i).type) [
  | inr t ↦ let e' = sym (unlink_dir c fs path i found t) ∙ e in cc e'
  | inl t ↦
      let e' = sym (unlink_at c fs path i found t) ∙ e in
      elim (Bool-cases (not (c.caller_uid == 0) && not ((fs.inodes i).uid == c.caller_uid))) [
        | inl d ↦ let e'' : (fail eacces, fs) ≡ (ret 0, g) = rw d at e' in cc e''
        | inr d ↦
            let e'' : (ret 0, removed fs i) ≡ (ret 0, g) = rw d at e' in
            sym (ap (λ (q : Code × Filesystem). q.1) e'')
      ]
]

-- A path with the key of slot `i`, the root's excepted.
abbrev pub names_slot : Filesystem → ℕ → List ℕ → Bool
names_slot fs i q =
    not (str_eq q slash_str) && same_key (fs.inodes i) (extract_filename q) (extract_prev_path q)

pub fs_lookup-removed :
    (fs : Filesystem) (i : ℕ) (q : List ℕ)
    → IsValid fs
    → i < max_inodes
    → IsUsed fs i
    → fs_lookup (removed fs i) q ≡ (if names_slot fs i q then none else fs_lookup fs q)
unfolding fs_lookup
fs_lookup-removed fs i q valid lt used = elim (Bool-cases (str_eq q slash_str)) [
  | inl e ↦ rw e
  | inr e ↦ rw e (find_key-removed fs i valid lt used (extract_filename q) (extract_prev_path q))
]

-- Who may not unlink a file: anybody but its owner and uid 0.
abbrev pub unlink_denied : Context → Inode → Bool
unlink_denied c v = not (c.caller_uid == 0) && not (v.uid == c.caller_uid)

-- Unlinking a path that is found: a directory is refused, and so is a caller who is neither uid 0
-- nor the owner, and nothing changes; otherwise exactly the paths with the key of the file are no
-- longer found.
pub unlink_lem :
    (c : Context) (fs : Filesystem) (path : List ℕ) (i : ℕ)
    → IsValid fs
    → fs_lookup fs path ≡ some i
    → (((fs.inodes i).type ≡ dir_type) × (unlink c fs path ≡ (fail eisdir, fs)))
      ⊎ ((((fs.inodes i).type ≡ file_type)
            × (unlink_denied c (fs.inodes i) ≡ true)
            × (unlink c fs path ≡ (fail eacces, fs)))
          ⊎ (((fs.inodes i).type ≡ file_type)
              × (unlink_denied c (fs.inodes i) ≡ false)
              × ((unlink c fs path).0 ≡ ret 0)
              × ((q : List ℕ)
                  → fs_lookup (unlink c fs path).1 q
                    ≡ (if names_slot fs i q then none else fs_lookup fs q))))
unfolding unlink_file
unlink_lem c fs path i valid found = elim (InodeType-cases (fs.inodes i).type) [
  | inr t ↦ inl (t, unlink_dir c fs path i found t)
  | inl t ↦ elim (Bool-cases (unlink_denied c (fs.inodes i))) [
    | inl d ↦ inr (inl (t, d, unlink_at c fs path i found t ∙ rw d refl))
    | inr d ↦
        let u = fs_lookup-IsUsed fs path i valid found in
        let e : unlink c fs path ≡ (ret 0, removed fs i) =
          unlink_at c fs path i found t ∙ rw d refl in
        inr (inr (t, d, rw e refl, rw e λ q. fs_lookup-removed fs i q valid u.0 u.1))
  ]
]

-- The table `g` is `fs` without the directory in slot `i`, and with one link less of its parent.
pub record Unlinked (fs g : Filesystem) (i : ℕ) : Type 0 where
  pub lookup : (q : List ℕ) → fs_lookup g q ≡ (if names_slot fs i q then none else fs_lookup fs q)
  pub free : g.inodes_bitmap i ≡ 0
  pub parent :
      (d : ℕ)
      → fs_lookup fs (fs.inodes i).prev_path ≡ some d
      → g.inodes d ≡ record (fs.inodes d) { nlink = (fs.inodes d).nlink - 1 }
  pub others :
      (j : ℕ) → j ≢ i → fs_lookup fs (fs.inodes i).prev_path ≢ some j → g.inodes j ≡ fs.inodes j

module _ (fs : Filesystem) (path : List ℕ) (i : ℕ) (valid : IsValid fs)
    (found : fs_lookup fs path ≡ some i) (dir : (fs.inodes i).type ≡ dir_type) where
  -- The parent is found as before while the directory's slot is free.
  parent-freed :
      str_eq (fs.inodes i).path slash_str ≡ false
      → fs_lookup (free_slot fs i) (fs.inodes i).prev_path ≡ fs_lookup fs (fs.inodes i).prev_path
  parent-freed ne =
      let v = fs.inodes i in
      let nz = not_zero_of_path fs i valid ne in
      let u = fs_lookup-IsUsed fs path i valid found in
      let k = valid.keyed i u.0 u.1 nz in
      let apart : names_slot fs i v.prev_path ≡ false =
        rw (k.prev_of_path, k.name_of_path) (parent_ne v.path) in
      sym (
        fs_lookup-unused (free_slot fs i) i zero_inode v.prev_path
          (update_self fs.inodes_bitmap i 0))
      ∙ fs_lookup-removed fs i v.prev_path valid u.0 u.1
      ∙ rw apart refl

  parent-ne_self :
      str_eq (fs.inodes i).path slash_str ≡ false → fs_lookup fs (fs.inodes i).prev_path ≢ some i
  parent-ne_self ne e =
      let nz = not_zero_of_path fs i valid ne in
      let ok = Changes-IsValid (one (release i nz)) valid in
      let used = (fs_lookup-IsUsed (free_slot fs i) _ i ok (parent-freed ne ∙ e)).1 in
      ground (arith, update_self fs.inodes_bitmap i 0)

  rmdir_dir-lookup :
      (q : List ℕ)
      → ltb 2 (fs.inodes i).nlink ≡ false
      → str_eq (fs.inodes i).path slash_str ≡ false
      → fs_lookup (rmdir_dir fs i (fs.inodes i)).1 q
        ≡ (if names_slot fs i q then none else fs_lookup fs q)
  unfolding rmdir_dir
  rmdir_dir-lookup q empty ne =
      let freed = free_slot fs i in
      let prev = (fs.inodes i).prev_path in
      let unused = update_self fs.inodes_bitmap i 0 in
      let unused' = modify_nlink_path-bitmap freed prev false i ∙ unused in
      let u = fs_lookup-IsUsed fs path i valid found in
      rw (empty, ne)
        (fs_lookup-unused (modify_nlink_path freed prev false) i zero_inode q unused'
          ∙ fs_lookup-modify_nlink_path freed prev q false
          ∙ sym (fs_lookup-unused freed i zero_inode q unused)
          ∙ fs_lookup-removed fs i q valid u.0 u.1)

  rmdir_dir-Unlinked :
      ltb 2 (fs.inodes i).nlink ≡ false
      → str_eq (fs.inodes i).path slash_str ≡ false
      → Unlinked fs (rmdir_dir fs i (fs.inodes i)).1 i
  unfolding rmdir_dir
  rmdir_dir-Unlinked empty ne =
      let freed = free_slot fs i in
      let prev = (fs.inodes i).prev_path in
      let counted = modify_nlink_path freed prev false in
      let same = parent-freed ne in
      record {
        lookup = λ q. rmdir_dir-lookup q empty ne;
        free =
            rw (empty, ne)
              (modify_nlink_path-bitmap freed prev false i ∙ update_self fs.inodes_bitmap i 0);
        parent = λ d e.
            let apart : d ≢ i = λ p. parent-ne_self ne (e ∙ ap some p) in
            rw (empty, ne)
              (update-ne counted.inodes i zero_inode d apart
                ∙ modify_nlink_path-down freed prev d (same ∙ e));
        others = λ j apart np.
            rw (empty, ne)
              (update-ne counted.inodes i zero_inode j apart
                ∙ modify_nlink_path-other freed prev false j (λ e. np (sym same ∙ e)));
      }

  -- Removing a directory that is found: it is refused with ENOTEMPTY if its link count is over 2, and
  -- else with EPERM if it is the root, and nothing changes; otherwise its slot is free, exactly the
  -- paths with its key are no longer found, its parent has one link less, and no other inode changes.
  pub rmdir_lem :
      ((rmdir fs path ≡ (fail enotempty, fs)) × (2 < (fs.inodes i).nlink))
      ⊎ (((rmdir fs path ≡ (fail eperm, fs)) × ((fs.inodes i).nlink ≤ 2) × (path ≡ slash_str))
          ⊎ (((rmdir fs path).0 ≡ ret 0)
              × ((fs.inodes i).nlink ≤ 2)
              × (path ≢ slash_str)
              × Unlinked fs (rmdir fs path).1 i))
  unfolding rmdir_dir
  rmdir_lem = rw (rmdir_at fs path i found dir) (elim (Bool-cases (ltb 2 (fs.inodes i).nlink)) [
    | inl full ↦ inl (rw full refl, ground arith)
    | inr empty ↦ elim (Bool-cases (str_eq (fs.inodes i).path slash_str)) [
      | inl is_root ↦ inr (inl (rw (empty, is_root) refl, few empty, root_path is_root))
      | inr ne ↦
          inr (inr (rw (empty, ne) refl, few empty, not_root_path ne, rmdir_dir-Unlinked empty ne))
    ]
  ])
    where
      few : ltb 2 (fs.inodes i).nlink ≡ false → (fs.inodes i).nlink ≤ 2
      few e = ground arith

      u : (i < max_inodes) × IsUsed fs i
      u = fs_lookup-IsUsed fs path i valid found

      root_path : str_eq (fs.inodes i).path slash_str ≡ true → path ≡ slash_str
      root_path e = elim (Bool-cases (i == 0)) [
        | inl z ↦ let z' : i ≡ 0 = ground arith in fs_lookup-zero fs path valid (found ∙ ap some z')
        | inr nz ↦ absurd (
            (valid.keyed i u.0 u.1 (ground arith)).not_root
              (eq_of_str_eq (fs.inodes i).path slash_str e))
      ]

      not_root_path : str_eq (fs.inodes i).path slash_str ≡ false → path ≢ slash_str
      not_root_path ne e =
          let z : some i ≡ some 0 = sym found ∙ (ap (fs_lookup fs) e ∙ fs_lookup-root fs) in
          not_zero_of_path fs i valid ne (cc z)
