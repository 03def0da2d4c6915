-- ===== src/Fisopfs/Table/Entry.antt =====
-- The effect of `fs_create_entry` of fisopfs/fs.c on a table in which the path is not yet found.
use tps_sis_ops.Base.{
  ℕ, zero, suc, ◌+◌, ◌<◌, ◌≡◌, ◌≢◌, ◌⊎◌, refl, sym, ap, ◌∙◌, inl, inr, List, [], ◌∷◌, none, some,
  Bool, true, false, not, ◌&&◌, ◌==◌, if◌then◌else◌, str_eq, str_eq_iff, eq_of_str_eq, Bool-cases,
  Option-cases, arith, length, length-take,
}
use tps_sis_ops.Fisopfs.Paths.{slash, slash_str, strrchr, extract_filename, extract_prev_path}
use tps_sis_ops.Fisopfs.Paths.Join.{prev_of_none, prev_of_zero, prev_of_some}
use tps_sis_ops.Fisopfs.Inode.{max_inodes, Inode, InodeType, Context, init_inode}
use tps_sis_ops.Fisopfs.Table.{
  Filesystem, ret, fail, enomem, eperm, place, fs_lookup, modify_nlink_path, fs_create_entry,
}
use tps_sis_ops.Fisopfs.Table.Invariant.{
  IsValid, Changes, Changes-trans, one, add, init_inode-IsStored, update_self, update-ne,
  Changes-IsValid,
}
use tps_sis_ops.Fisopfs.Table.Lookup.{fs_lookup-IsUsed}
use tps_sis_ops.Fisopfs.Table.Keys.{FreeSlot, free-ne_zero, find_key-place}
use tps_sis_ops.Fisopfs.Table.Create.{
  new_inode, new_inode-IsKeyed, new_inode-IsFresh, fs_add_inode-new, ne_root_of_lookup,
  modify_nlink_path-Changes, modify_nlink_path-other, modify_nlink_path-up,
  fs_lookup-modify_nlink_path,
}

strrchr-lt : (s : List ℕ) (c k : ℕ) → strrchr s c ≡ some k → k < length s
unfolding strrchr
strrchr-lt [] c k h = cc
strrchr-lt (x ∷ s) c k h = elim (Option-cases (strrchr s c)) [
  | inl e ↦ ground arith
  | inr (j, e) ↦ let lt = strrchr-lt s c j e in ground (arith, lt)
]

-- Only the root's path is its own directory.
root_of_prev_some :
    (q : List ℕ) (k : ℕ) → strrchr q slash ≡ some k → extract_prev_path q ≡ q → q ≡ slash_str
root_of_prev_some q zero e h = sym h ∙ prev_of_zero q e
root_of_prev_some q (suc k) e h =
    let short = ap length (sym (prev_of_some q k e) ∙ h) in
    absurd (omega (arith, short, length-take (suc k) q, strrchr-lt q slash (suc k) e))

root_of_prev : (q : List ℕ) → extract_prev_path q ≡ q → q ≡ slash_str
root_of_prev q h = elim (Option-cases (strrchr q slash)) [
  | inl e ↦ sym h ∙ prev_of_none q e
  | inr (k, e) ↦ root_of_prev_some q k e h
]

-- The same name in the same directory, away from the root.
abbrev pub same_entry : List ℕ → List ℕ → Bool
same_entry path q =
    not (str_eq q slash_str)
    && (str_eq (extract_filename path) (extract_filename q)
        && str_eq (extract_prev_path path) (extract_prev_path q))

-- The table `g` is `fs` with a new entry for `path`.
pub record Created (c : Context) (fs : Filesystem) (path : List ℕ) (type : InodeType)
    (g : Filesystem) : Type 0 where
  pub slot : ℕ
  pub free : FreeSlot fs slot
  pub entry : g.inodes slot ≡ new_inode c path type
  pub lookup :
      (q : List ℕ) → fs_lookup g q ≡ (if same_entry path q then some slot else fs_lookup fs q)
  pub parent :
      (d : ℕ)
      → fs_lookup fs (extract_prev_path path) ≡ some d
      → g.inodes d ≡ record (fs.inodes d) { nlink = (fs.inodes d).nlink + 1 }
  pub others :
      (j : ℕ) → j ≢ slot → fs_lookup fs (extract_prev_path path) ≢ some j → g.inodes j ≡ fs.inodes j

module _ (c : Context) (fs : Filesystem) (path : List ℕ) (type : InodeType) where
  fs_lookup-place :
      (i : ℕ)
      → IsValid fs
      → FreeSlot fs i
      → fs_lookup fs path ≡ none
      → (q : List ℕ)
      → fs_lookup (place fs i (new_inode c path type)) q
        ≡ (if same_entry path q then some i else fs_lookup fs q)
  unfolding fs_lookup init_inode extract_filename extract_prev_path
  fs_lookup-place i valid slot h q = elim (Bool-cases (str_eq q slash_str)) [
    | inl e ↦ rw e
    | inr e ↦ rw e (
        find_key-place fs i (new_inode c path type) valid slot (new_inode-IsFresh c fs path type h)
          (new_inode-IsKeyed c fs path type (ne_root_of_lookup fs path h))
          (init_inode-IsStored c _ path _ type) (extract_filename q) (extract_prev_path q))
  ]

-- A new entry is not its own directory.
pub parent_ne : (path : List ℕ) → same_entry path (extract_prev_path path) ≡ false
parent_ne path = elim (Bool-cases (str_eq (extract_prev_path path) slash_str)) [
  | inl e ↦ rw e
  | inr e ↦
      elim (Bool-cases
        (str_eq (extract_prev_path path) (extract_prev_path (extract_prev_path path)))) [
          | inl t ↦
              let r = root_of_prev (extract_prev_path path) (sym (eq_of_str_eq _ _ t)) in
              let t' = (str_eq_iff (extract_prev_path path) slash_str).1 r in absurd (ground arith)
          | inr f ↦ ground arith
        ]
]

module _ (c : Context) (fs : Filesystem) (path : List ℕ) (type : InodeType) where
  placed-Created :
      (i : ℕ)
      → IsValid fs
      → FreeSlot fs i
      → fs_lookup fs path ≡ none
      → Created c fs path type
          (modify_nlink_path (place fs i (new_inode c path type)) (extract_prev_path path) true)
  placed-Created i valid slot h = record {
    slot = i;
    free = slot;
    entry =
        modify_nlink_path-other table prev true i (λ e. unused (sym found ∙ e))
        ∙ update_self fs.inodes i inode;
    lookup = λ q.
        fs_lookup-modify_nlink_path table prev q true
        ∙ fs_lookup-place c fs path type i valid slot h q;
    parent = λ d e.
        let apart : d ≢ i = λ p. unused (e ∙ ap some p) in
        ap (λ (g : Filesystem). g.inodes d) (modify_nlink_path-up table prev d (found ∙ e))
        ∙ update_self table.inodes d _
        ∙ ap (λ (v : Inode). record v { nlink = v.nlink + 1 })
            (update-ne fs.inodes i inode d apart);
    others = λ j ne np.
        modify_nlink_path-other table prev true j (λ e. np (sym found ∙ e))
        ∙ update-ne fs.inodes i inode j ne;
  }
    where
      inode : Inode
      inode = new_inode c path type

      prev : List ℕ
      prev = extract_prev_path path

      table : Filesystem
      table = place fs i inode

      found : fs_lookup table prev ≡ fs_lookup fs prev
      found = fs_lookup-place c fs path type i valid slot h prev ∙ rw (parent_ne path) refl

      unused : fs_lookup fs prev ≢ some i
      unused e = ground (arith, (fs_lookup-IsUsed fs prev i valid e).1, slot.free)

  placed-Changes :
      (i : ℕ)
      → IsValid fs
      → FreeSlot fs i
      → fs_lookup fs path ≡ none
      → Changes fs
          (modify_nlink_path (place fs i (new_inode c path type)) (extract_prev_path path) true)
  placed-Changes i valid slot h =
      let placed = one (
        add i (new_inode c path type) (free-ne_zero fs i valid slot.free)
          (new_inode-IsFresh c fs path type h)
          (new_inode-IsKeyed c fs path type (ne_root_of_lookup fs path h))
          (init_inode-IsStored c _ path _ type)) in
      Changes-trans placed (
        modify_nlink_path-Changes (place fs i (new_inode c path type)) (extract_prev_path path) true
          (Changes-IsValid placed valid))

  -- Creating an entry for a path that is not there, in a valid table: when 256 inodes were ever
  -- created, it is refused with ENOMEM and nothing changes; else, when no slot is free, with EPERM;
  -- else it succeeds, and exactly the new entry is there, with a link counted in its directory.
  pub fs_create_entry-cases :
      (mode : ℕ)
      → IsValid fs
      → fs_lookup fs path ≡ none
      → ((fs.inodes_amount ≡ max_inodes)
          × (fs_create_entry c fs path mode type ≡ (fail enomem, fs)))
        ⊎ (((fs.inodes_amount ≢ max_inodes)
              × ((j : ℕ) → j < max_inodes → fs.inodes_bitmap j ≢ 0)
              × (fs_create_entry c fs path mode type ≡ (fail eperm, fs)))
            ⊎ ((fs.inodes_amount ≢ max_inodes)
                × ((fs_create_entry c fs path mode type).0 ≡ ret 0)
                × Created c fs path type (fs_create_entry c fs path mode type).1
                × Changes fs (fs_create_entry c fs path mode type).1))
  unfolding fs_create_entry
  fs_create_entry-cases mode valid h = elim (Bool-cases (fs.inodes_amount == max_inodes)) [
    | inl full ↦ inl (ground arith, rw full refl)
    | inr room ↦ elim (fs_add_inode-new c fs path type h) [
      | inl (e, q) ↦ inr (inl (not_full room, e, rw (room, q) (rw q refl)))
      | inr (i, slot, q) ↦ inr (
          inr (
            rw (room, q)
              (rw q (
                not_full room,
                refl,
                placed-Created i valid slot h,
                placed-Changes i valid slot h,
              ))))
    ]
  ]
    where
      not_full : (fs.inodes_amount == max_inodes) ≡ false → fs.inodes_amount ≢ max_inodes
      not_full e = ground arith
