-- ===== src/Fisopfs/Table/Invariant.antt =====
-- The invariant of the inode table (fisopfs/fs.c), and the small changes that the operations of
-- fisopfs/fs.c and fisopfs/fisopfs.c are made of.
use tps_sis_ops.Base.{
  ℕ, zero, suc, ◌≤◌, ◌<◌, ◌≡◌, ◌≢◌, refl, sym, ap, ◌∙◌, inl, inr, List, [], ◌∷◌, length, drop,
  replicate, ◌==◌, Bool-cases, arith, update, length-replicate,
}
use tps_sis_ops.Fisopfs.Paths.{slash_str, extract_filename, extract_prev_path}
use tps_sis_ops.Fisopfs.Inode.{
  max_data, max_inodes, Inode, InodeType, dir_type, Context, zero_inode, init_inode,
}
use tps_sis_ops.Fisopfs.Table.{Filesystem, set_inode, place}

-- Only zeros.
abbrev pub AreZeros : List ℕ → Type 0
AreZeros [] = Unit
AreZeros (x ∷ s) = (x ≡ 0) × AreZeros s

-- The content of an inode fits in its array, and the array is zero behind it.
pub record IsStored (v : Inode) : Type 0 where
  pub capacity : length v.content ≡ max_data
  pub bounded : v.size ≤ max_data
  pub rest_zero : AreZeros (drop v.size v.content)

abbrev pub IsUsed : Filesystem → ℕ → Type 0
IsUsed fs i = fs.inodes_bitmap i ≡ 1

-- Name and `prev_path` of an inode come from its path, which is not the root's.
pub record IsKeyed (v : Inode) : Type 0 where
  pub name_of_path : v.name ≡ extract_filename v.path
  pub prev_of_path : v.prev_path ≡ extract_prev_path v.path
  pub not_root : v.path ≢ slash_str

pub record IsRoot (v : Inode) : Type 0 where
  pub root_name : v.name ≡ slash_str
  pub root_path : v.path ≡ slash_str
  pub root_prev : v.prev_path ≡ []
  pub root_type : v.type ≡ dir_type

-- Slot 0 holds the root; the other used slots have keys that fit their paths, no two the same; and
-- every slot, used or not, keeps its content in bounds.
pub record IsValid (fs : Filesystem) : Type 0 where
  pub root_used : IsUsed fs 0
  pub root : IsRoot (fs.inodes 0)
  pub keyed : (i : ℕ) → i < max_inodes → IsUsed fs i → i ≢ 0 → IsKeyed (fs.inodes i)
  pub unique :
      (i j : ℕ)
      → i < max_inodes
      → j < max_inodes
      → IsUsed fs i
      → IsUsed fs j
      → (fs.inodes i).name ≡ (fs.inodes j).name
      → (fs.inodes i).prev_path ≡ (fs.inodes j).prev_path
      → i ≡ j
  pub stored : (i : ℕ) → IsStored (fs.inodes i)

-- `w` has the name, the paths and the type of `v`.
pub record SameKey (v w : Inode) : Type 0 where
  pub same_name : w.name ≡ v.name
  pub same_path : w.path ≡ v.path
  pub same_prev : w.prev_path ≡ v.prev_path
  pub same_type : w.type ≡ v.type

-- No used slot has this name and this `prev_path`.
abbrev pub IsFresh : Filesystem → List ℕ → List ℕ → Type 0
IsFresh fs name prev_path =
    (i : ℕ)
    → i < max_inodes
    → IsUsed fs i
    → (fs.inodes i).name ≡ name
    → (fs.inodes i).prev_path ≡ prev_path
    → ⊥

-- One change of the table.
pub data Change (fs : Filesystem) : Filesystem → Type 0 where
  edit : (i : ℕ) (v : Inode) → SameKey (fs.inodes i) v → IsStored v → Change fs (set_inode fs i v)
  add :
      (i : ℕ) (v : Inode)
      → i ≢ 0
      → IsFresh fs v.name v.prev_path
      → IsKeyed v
      → IsStored v
      → Change fs (place fs i v)
  release : (i : ℕ) → i ≢ 0 → Change fs (record fs { inodes_bitmap = update fs.inodes_bitmap i 0 })
  wipe : (i : ℕ) → fs.inodes_bitmap i ≡ 0 → i ≢ 0 → Change fs (set_inode fs i zero_inode)

pub data Changes (fs : Filesystem) : Filesystem → Type 0 where
  here : Changes fs fs
  next : {g h : Filesystem} → Changes fs g → Change g h → Changes fs h

zeros_drop : (n k : ℕ) → AreZeros (drop k (replicate n 0))
zeros_drop zero zero = tt
zeros_drop zero (suc k) = tt
zeros_drop (suc n) zero = (refl, zeros_drop n 0)
zeros_drop (suc n) (suc k) = zeros_drop n k

pub zero_inode-IsStored : IsStored zero_inode
unfolding zero_inode
zero_inode-IsStored = record {
  capacity = length-replicate {A = ℕ} max_data 0;
  bounded = omega arith;
  rest_zero = zeros_drop max_data 0;
}

pub init_inode-IsStored :
    (c : Context) (name path prev_path : List ℕ) (type : InodeType)
    → IsStored (init_inode c name path prev_path type)
unfolding init_inode
init_inode-IsStored c name path prev_path type = record {
  capacity = length-replicate {A = ℕ} max_data 0;
  bounded = omega arith;
  rest_zero = zeros_drop max_data 0;
}

-- A predicate holds throughout an updated array.
update-all {ℓ κ} :
    {A : Type ℓ} (P : A → Type κ) (f : ℕ → A) (i : ℕ) (v : A)
    → ((j : ℕ) → P (f j))
    → P v
    → (j : ℕ) → P (update f i v j)
update-all P f i v all one j = elim (Bool-cases (j == i)) [
  | inl e ↦ rw e one
  | inr e ↦ rw e (all j)
]

SameKey-refl : (v : Inode) → SameKey v v
SameKey-refl v = record { same_name = refl; same_path = refl; same_prev = refl; same_type = refl }

module _ (fs : Filesystem) (i : ℕ) (v : Inode) (same : SameKey (fs.inodes i) v) where
  pub edited : (j : ℕ) → SameKey (fs.inodes j) (update fs.inodes i v j)
  edited j = elim (Bool-cases (j == i)) [
    | inl e ↦ rw e (let e' : j ≡ i = ground arith in rw e' same)
    | inr e ↦ rw e (SameKey-refl (fs.inodes j))
  ]

IsKeyed-of_SameKey : (v w : Inode) → SameKey v w → IsKeyed v → IsKeyed w
IsKeyed-of_SameKey v w s k = record {
  name_of_path = s.same_name ∙ k.name_of_path ∙ ap extract_filename (sym s.same_path);
  prev_of_path = s.same_prev ∙ k.prev_of_path ∙ ap extract_prev_path (sym s.same_path);
  not_root = λ e. k.not_root (sym s.same_path ∙ e);
}

IsRoot-of_SameKey : (v w : Inode) → SameKey v w → IsRoot v → IsRoot w
IsRoot-of_SameKey v w s k = record {
  root_name = s.same_name ∙ k.root_name;
  root_path = s.same_path ∙ k.root_path;
  root_prev = s.same_prev ∙ k.root_prev;
  root_type = s.same_type ∙ k.root_type;
}

module _ {A : Type 0} (f : ℕ → A) (i : ℕ) (v : A) where
  pub update_self : update f i v i ≡ v
  update_self = ground arith

  pub update-ne : (j : ℕ) → j ≢ i → update f i v j ≡ f j
  update-ne j ne = ground arith

used_before : (f : ℕ → ℕ) (i j : ℕ) → update f i 0 j ≡ 1 → (j ≢ i) × (f j ≡ 1)
used_before f i j h = ((λ e. ground arith), ground arith)

-- Wherever an array was not updated, what held of the entry still holds.
kept {κ} :
    {A : Type 0} (P : A → Type κ) (f : ℕ → A) (i : ℕ) (v : A) (j : ℕ)
    → j ≢ i
    → P (f j)
    → P (update f i v j)
kept P f i v j ne h = rw (update-ne f i v j ne) h

module _ (fs : Filesystem) (i : ℕ) (v : Inode) (fresh : IsFresh fs v.name v.prev_path)
    (valid : IsValid fs) where
  -- Two used slots with one key after an addition are the same slot.
  add_unique :
      (j k : ℕ)
      → j < max_inodes
      → k < max_inodes
      → IsUsed (place fs i v) j
      → IsUsed (place fs i v) k
      → ((place fs i v).inodes j).name ≡ ((place fs i v).inodes k).name
      → ((place fs i v).inodes j).prev_path ≡ ((place fs i v).inodes k).prev_path
      → j ≡ k
  add_unique j k lj lk uj uk en ep = elim (Bool-cases (j == i)) [
    | inl ej ↦ elim (Bool-cases (k == i)) [
      | inl ek ↦ ground arith
      | inr ek ↦ absurd (fresh k lk (ground arith) (ground arith) (ground arith))
    ]
    | inr ej ↦ elim (Bool-cases (k == i)) [
      | inl ek ↦ absurd (fresh j lj (ground arith) (ground arith) (ground arith))
      | inr ek ↦ valid.unique j k lj lk (ground arith) (ground arith) (ground arith) (ground arith)
    ]
  ]

pub Change-IsValid : {fs g : Filesystem} → Change fs g → IsValid fs → IsValid g
Change-IsValid {fs} (edit i v same ok) valid = record {
  root_used = valid.root_used;
  root = IsRoot-of_SameKey (fs.inodes 0) _ (edited fs i v same 0) valid.root;
  keyed = λ j lt used ne.
      IsKeyed-of_SameKey (fs.inodes j) _ (edited fs i v same j) (valid.keyed j lt used ne);
  unique = λ j k lj lk uj uk en ep.
      let sj = edited fs i v same j in
      let sk = edited fs i v same k in
      valid.unique j k lj lk uj uk (sym sj.same_name ∙ en ∙ sk.same_name)
        (sym sj.same_prev ∙ ep ∙ sk.same_prev);
  stored = update-all IsStored fs.inodes i v valid.stored ok;
}
Change-IsValid {fs} (add i v ne fresh keys ok) valid = record {
  root_used = ground (arith, valid.root_used);
  root = kept IsRoot fs.inodes i v 0 (λ e. ne (sym e)) valid.root;
  keyed = λ j lt used nz. elim (Bool-cases (j == i)) [
    | inl e ↦ rw e keys
    | inr e ↦ rw e (valid.keyed j lt (ground arith) nz)
  ];
  unique = add_unique fs i v fresh valid;
  stored = update-all IsStored fs.inodes i v valid.stored ok;
}
Change-IsValid {fs} (release i ne) valid = record {
  root_used = ground (arith, valid.root_used);
  root = valid.root;
  keyed = λ j lt used nz. valid.keyed j lt (used_before fs.inodes_bitmap i j used).1 nz;
  unique = λ j k lj lk uj uk.
      valid.unique j k lj lk (used_before fs.inodes_bitmap i j uj).1
        (used_before fs.inodes_bitmap i k uk).1;
  stored = valid.stored;
}
Change-IsValid {fs} (wipe i free ne) valid = record {
  root_used = valid.root_used;
  root = kept IsRoot fs.inodes i zero_inode 0 (λ e. ne (sym e)) valid.root;
  keyed = λ j lt used nz.
      kept IsKeyed fs.inodes i zero_inode j (apart j used) (valid.keyed j lt used nz);
  unique = λ j k lj lk uj uk en ep.
      let ej = update-ne fs.inodes i zero_inode j (apart j uj) in
      let ek = update-ne fs.inodes i zero_inode k (apart k uk) in
      valid.unique j k lj lk uj uk
        (ap (λ (w : Inode). w.name) (sym ej) ∙ en ∙ ap (λ (w : Inode). w.name) ek)
        (ap (λ (w : Inode). w.prev_path) (sym ej) ∙ ep ∙ ap (λ (w : Inode). w.prev_path) ek);
  stored = update-all IsStored fs.inodes i zero_inode valid.stored zero_inode-IsStored;
}
  where
    apart : (j : ℕ) → IsUsed fs j → j ≢ i
    apart j used e = ground (arith, ap fs.inodes_bitmap e)

pub Changes-IsValid : {fs g : Filesystem} → Changes fs g → IsValid fs → IsValid g
Changes-IsValid here valid = valid
Changes-IsValid (next cs c) valid = Change-IsValid c (Changes-IsValid cs valid)

pub one : {fs g : Filesystem} → Change fs g → Changes fs g
one c = next here c

pub Changes-trans : {fs g h : Filesystem} → Changes fs g → Changes g h → Changes fs h
Changes-trans cs here = cs
Changes-trans cs (next ds d) = next (Changes-trans cs ds) d

pub AreZeros-drop : (s : List ℕ) (j k : ℕ) → j ≤ k → AreZeros (drop j s) → AreZeros (drop k s)
AreZeros-drop [] j zero le z = tt
AreZeros-drop [] j (suc k) le z = tt
AreZeros-drop (x ∷ s) zero zero le z = z
AreZeros-drop (x ∷ s) zero (suc k) le z = AreZeros-drop s 0 k (omega arith) z.1
AreZeros-drop (x ∷ s) (suc j) zero le z = absurd (omega arith)
AreZeros-drop (x ∷ s) (suc j) (suc k) le z = AreZeros-drop s j k (omega arith) z
