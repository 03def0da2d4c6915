-- ===== src/Fisopfs/Handlers/Listing.antt =====
-- `fisopfs_readdir` and `fisopfs_chmod` of fisopfs/fisopfs.c.
use mathlib.Core.Path.{subst}
use tps_sis_ops.Base.{
  ℕ, zero, suc, ◌+◌, ◌*◌, ◌/◌, ◌%◌, ◌≤◌, ◌<◌, ◌≡◌, ◌≢◌, ◌⊎◌, ◌↔◌, refl, sym, inl, inr, List, [],
  ◌∷◌, some, true, false, not, ◌&&◌, ◌==◌, if◌then◌else◌, str_eq_refl, eq_of_str_eq, Bool-cases,
  arith,
}
use tps_sis_ops.Fisopfs.Inode.{max_inodes, Inode, dir_type, Context}
use tps_sis_ops.Fisopfs.Table.{Filesystem, ret, fail, eperm, fs_lookup}
use tps_sis_ops.Fisopfs.Table.Invariant.{IsUsed, update_self}
use tps_sis_ops.Fisopfs.Handlers.{
  dot, dot_dot, is_child, children, readdir, mode_bit, has_read_permission, chmod,
}

abbrev pub IsListed : List ℕ → List (List ℕ) → Type 0
IsListed n [] = ⊥
IsListed n (x ∷ xs) = (x ≡ n) ⊎ IsListed n xs

-- A slot of the range with this name in this directory.
abbrev pub Entry : Filesystem → List ℕ → List ℕ → ℕ → ℕ → Type 0
Entry fs dir n i j =
    (i ≤ j)
    × (j < max_inodes)
    × IsUsed fs j
    × ((fs.inodes j).prev_path ≡ dir)
    × ((fs.inodes j).name ≡ n)

is_child_iff :
    (fs : Filesystem) (dir : List ℕ) (i : ℕ)
    → (is_child fs dir i ≡ true) ↔ (IsUsed fs i × ((fs.inodes i).prev_path ≡ dir))
unfolding is_child
is_child_iff fs dir i = (
  λ h. (ground arith, eq_of_str_eq (fs.inodes i).prev_path dir (ground arith)),
  λ h. rw (h.0, h.1, str_eq_refl dir),
)

Entry-back :
    (fs : Filesystem) (dir n : List ℕ) (i j : ℕ) → Entry fs dir n (i + 1) j → Entry fs dir n i j
Entry-back fs dir n i j (lo, hi, used, prev, name) = (omega arith, hi, used, prev, name)

children_sound :
    (fs : Filesystem) (dir n : List ℕ) (k i : ℕ)
    → i + k ≡ max_inodes
    → IsListed n (children fs dir k i)
    → (j : ℕ) × Entry fs dir n i j
unfolding children
children_sound fs dir n zero i e h = absurd h
children_sound fs dir n (suc k) i e h = elim (Bool-cases (is_child fs dir i)) [
  | inl c ↦
      let h' : IsListed n ((fs.inodes i).name ∷ children fs dir k (i + 1)) = rw c at h in
      let u = (is_child_iff fs dir i).0 c in
      elim h' [
        | inl eq ↦ (i, (omega arith, omega arith, u.0, u.1, eq))
        | inr later ↦
            let (j, entry) = children_sound fs dir n k (i + 1) (omega arith) later in
            (j, Entry-back fs dir n i j entry)
      ]
  | inr c ↦
      let h' : IsListed n (children fs dir k (i + 1)) = rw c at h in
      let (j, entry) = children_sound fs dir n k (i + 1) (omega arith) h' in
      (j, Entry-back fs dir n i j entry)
]

children_complete :
    (fs : Filesystem) (dir n : List ℕ) (k i j : ℕ)
    → i + k ≡ max_inodes
    → Entry fs dir n i j
    → IsListed n (children fs dir k i)
unfolding children
children_complete fs dir n zero i j e h = absurd (omega (arith, h.0, h.1))
children_complete fs dir n (suc k) i j e (lo, hi, used, prev, name) = elim (Bool-cases (j == i)) [
  | inl eq ↦
      let same : j ≡ i = ground arith in
      let c = (is_child_iff fs dir j).1 (used, prev) in
      let c' : is_child fs dir i ≡ true = subst (λ (m : ℕ). is_child fs dir m ≡ true) same c in
      rw c' (inl (subst (λ (m : ℕ). (fs.inodes m).name ≡ n) same name))
  | inr ne ↦
      let rest =
        children_complete fs dir n k (i + 1) j (omega arith) (ground arith, hi, used, prev, name) in
      elim (Bool-cases (is_child fs dir i)) [ inl c ↦ rw c (inr rest) | inr c ↦ rw c rest ]
]

-- Listing a directory succeeds, and gives "." and ".." and behind them exactly the names of the
-- inodes in use whose `prev_path` is the path of the directory.
pub readdir_lem :
    (fs : Filesystem) (path n : List ℕ) (i : ℕ)
    → fs_lookup fs path ≡ some i
    → (fs.inodes i).type ≡ dir_type
    → (names : List (List ℕ)) × (readdir fs path ≡ (ret 0, dot ∷ dot_dot ∷ names))
      × (IsListed n names ↔ ((j : ℕ) × Entry fs (fs.inodes i).path n 0 j))
unfolding readdir
readdir_lem fs path n i found dir = (
  children fs (fs.inodes i).path max_inodes 0,
  rw (found, readdir) (simp dir),
  (
    children_sound fs (fs.inodes i).path n max_inodes 0 refl,
    λ (j, entry). children_complete fs (fs.inodes i).path n max_inodes 0 j refl entry,
  ),
)

abbrev chmod_inode : Context → Inode → ℕ → Inode
chmod_inode c v mode = record v {
  mode = v.mode / 0o10000 * 0o10000 + mode % 0o10000;
  modification_time = c.time 0;
}

owner_permission :
    (c : Context) (v : Inode) (mode gid : ℕ)
    → v.uid ≢ 0
    → (has_read_permission (chmod_inode c v mode) v.uid gid ≡ mode_bit mode 0o400)
      × ((chmod_inode c v mode).mode / 0o10000 ≡ v.mode / 0o10000)
unfolding has_read_permission
owner_permission c v mode gid ne =
    let bit : (v.mode / 0o10000 * 0o10000 + mode % 0o10000) / 0o400 % 2 ≡ mode / 0o400 % 2 =
      omega arith in
    let nz : (v.uid == 0) ≡ false = ground arith in
    let self : (v.uid == v.uid) ≡ true = ground arith in (rw (nz, self, bit), omega arith)

-- By `chmod` the owner of an inode or uid 0 sets what the owner may read, and keeps the kind of the
-- inode: the bits above the twelve permission bits. Anybody else is refused.
pub chmod-has_read_permission :
    (c : Context) (fs : Filesystem) (path : List ℕ) (mode gid i : ℕ)
    → fs_lookup fs path ≡ some i
    → (fs.inodes i).uid ≢ 0
    → (if not (c.caller_uid == 0) && not (c.caller_uid == (fs.inodes i).uid)
        then chmod c fs path mode ≡ (fail eperm, fs)
        else (((chmod c fs path mode).0 ≡ ret 0)
            × ((has_read_permission ((chmod c fs path mode).1.inodes i) (fs.inodes i).uid gid
                  ≡ mode_bit mode 0o400)
                × (((chmod c fs path mode).1.inodes i).mode / 0o10000
                    ≡ (fs.inodes i).mode / 0o10000))))
unfolding chmod
chmod-has_read_permission c fs path mode gid i found owner =
    rw (found, chmod)
      (elim (Bool-cases (not (c.caller_uid == 0) && not (c.caller_uid == (fs.inodes i).uid))) [
        | inl d ↦ rw d refl
        | inr d ↦
            let v = fs.inodes i in
            rw d (
              refl,
              subst
                  (λ (w : Inode).
                    (has_read_permission w v.uid gid ≡ mode_bit mode 0o400)
                    × (w.mode / 0o10000 ≡ v.mode / 0o10000))
                  (sym (update_self fs.inodes i (chmod_inode c v mode)))
                  (owner_permission c v mode gid owner),
            )
      ])
