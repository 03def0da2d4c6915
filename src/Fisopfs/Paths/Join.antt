-- ===== src/Fisopfs/Paths/Join.antt =====
-- How the path functions of fisopfs/fs.c and fisopfs/fisopfs.c take a path apart: they invert the
-- rendering of a list of components.
use tps_sis_ops.Base.{
  ℕ, suc, ◌+◌, ◌≡◌, refl, ap, ◌∙◌, List, [], ◌∷◌, ◌++◌, none, some, true, false, length, take, drop,
  ◌==◌, if◌then◌else◌, str_eq, arith,
}
use mathlib.Core.List.{append_assoc, append-nil}
use tps_sis_ops.Fisopfs.Paths.{
  slash, slash_str, strrchr, name_or_slash, extract_filename, extract_prev_path, count_slashes,
  skip_slash, path_depth,
}

-- No slash in a string.
abbrev pub NoSlash : List ℕ → Type 0
NoSlash [] = Unit
NoSlash (x ∷ s) = ((x == slash) ≡ false) × NoSlash s

-- A component of a path: not empty, and with no slash.
abbrev pub IsName : List ℕ → Type 0
IsName [] = ⊥
IsName (x ∷ s) = ((x == slash) ≡ false) × NoSlash s

abbrev pub AreNames : List (List ℕ) → Type 0
AreNames [] = Unit
AreNames (c ∷ cs) = IsName c × AreNames cs

-- Each component behind a slash.
unfoldable pub flat : List (List ℕ) → List ℕ
flat [] = []
flat (c ∷ cs) = slash ∷ (c ++ flat cs)

-- The absolute path with these components; "/" if there are none.
unfoldable pub render : List (List ℕ) → List ℕ
render [] = slash_str
render (c ∷ cs) = flat (c ∷ cs)

-- The path of the entry `name` of the directory `prev`.
unfoldable pub join : List ℕ → List ℕ → List ℕ
join prev name = if str_eq prev slash_str then slash ∷ name else prev ++ (slash ∷ name)

NoSlash-of_IsName : (c : List ℕ) → IsName c → NoSlash c
NoSlash-of_IsName [] h = tt
NoSlash-of_IsName (x ∷ s) h = h

strrchr-NoSlash : (s : List ℕ) → NoSlash s → strrchr s slash ≡ none
unfolding strrchr
strrchr-NoSlash [] h = refl
strrchr-NoSlash (x ∷ s) h = rw (strrchr-NoSlash s h.1, h.0)

strrchr-append : (s t : List ℕ) → NoSlash t → strrchr (s ++ (slash ∷ t)) slash ≡ some (length s)
unfolding strrchr
strrchr-append [] t h = rw (strrchr-NoSlash t h)
strrchr-append (x ∷ s) t h = rw (strrchr-append s t h)

drop-length {ℓ} :
    {A : Type ℓ} (s : List A) (x : A) (t : List A) → drop (suc (length s)) (s ++ (x ∷ t)) ≡ t
drop-length [] x t = refl
drop-length (y ∷ s) x t = drop-length s x t

take-length {ℓ} : {A : Type ℓ} (s t : List A) → take (length s) (s ++ t) ≡ s
take-length [] t = refl
take-length (y ∷ s) t = ap (◌∷◌ y) (take-length s t)

filename_of_some :
    (p : List ℕ) (k : ℕ)
    → strrchr p slash ≡ some k
    → extract_filename p ≡ name_or_slash (drop (suc k) p)
unfolding extract_filename
filename_of_some p k e = rw (e, extract_filename) refl

pub prev_of_none : (p : List ℕ) → strrchr p slash ≡ none → extract_prev_path p ≡ slash_str
unfolding extract_prev_path
prev_of_none p e = rw (e, extract_prev_path) refl

pub prev_of_some :
    (p : List ℕ) (k : ℕ) → strrchr p slash ≡ some (suc k) → extract_prev_path p ≡ take (suc k) p
unfolding extract_prev_path
prev_of_some p k e = rw (e, extract_prev_path) refl

pub prev_of_zero : (p : List ℕ) → strrchr p slash ≡ some 0 → extract_prev_path p ≡ slash_str
unfolding extract_prev_path
prev_of_zero p e = rw (e, extract_prev_path) refl

name_or_slash-IsName : (c : List ℕ) → IsName c → name_or_slash c ≡ c
unfolding name_or_slash
name_or_slash-IsName [] h = absurd h
name_or_slash-IsName (x ∷ s) h = refl

filename-append : (s name : List ℕ) → IsName name → extract_filename (s ++ (slash ∷ name)) ≡ name
filename-append s name h =
    filename_of_some _ (length s) (strrchr-append s name (NoSlash-of_IsName name h))
    ∙ ap name_or_slash (drop-length s slash name)
    ∙ name_or_slash-IsName name h

prev-append_cons :
    (x : ℕ) (s name : List ℕ) → IsName name → extract_prev_path ((x ∷ s) ++ (slash ∷ name)) ≡ x ∷ s
prev-append_cons x s name h =
    prev_of_some _ (length s) (strrchr-append (x ∷ s) name (NoSlash-of_IsName name h))
    ∙ take-length (x ∷ s) (slash ∷ name)

prev-append_nil : (name : List ℕ) → IsName name → extract_prev_path (slash ∷ name) ≡ slash_str
prev-append_nil name h = prev_of_zero _ (strrchr-append [] name (NoSlash-of_IsName name h))

flat-append : (cs : List (List ℕ)) (c : List ℕ) → flat (cs ++ (c ∷ [])) ≡ flat cs ++ (slash ∷ c)
unfolding flat
flat-append [] c = rw append-nil
flat-append (d ∷ cs) c = rw (flat-append cs c, append_assoc)

render-append : (cs : List (List ℕ)) (c : List ℕ) → render (cs ++ (c ∷ [])) ≡ flat cs ++ (slash ∷ c)
unfolding render
render-append [] c = flat-append [] c
render-append (d ∷ cs) c = flat-append (d ∷ cs) c

-- The path of an entry splits into the entry's name and the path of its directory.
pub split-render :
    (cs : List (List ℕ)) (c : List ℕ)
    → IsName c
    → (extract_filename (render (cs ++ (c ∷ []))) ≡ c)
      × (extract_prev_path (render (cs ++ (c ∷ []))) ≡ render cs)
unfolding render flat
split-render [] c h = (
  rw (render-append [] c) (filename-append [] c h),
  rw (render-append [] c) (prev-append_nil c h),
)
split-render (d ∷ cs) c h = (
  rw (render-append (d ∷ cs) c) (filename-append (flat (d ∷ cs)) c h),
  rw (render-append (d ∷ cs) c) (prev-append_cons slash (d ++ flat cs) c h),
)

slash_of_render : (cs : List (List ℕ)) → AreNames cs → str_eq (render cs) slash_str ≡ true → cs ≡ []
unfolding render flat str_eq
slash_of_render [] h e = refl
slash_of_render ([] ∷ cs) h e = absurd h.0
slash_of_render ((x ∷ c) ∷ cs) h e = ground arith

-- Joining a directory's path to a name gives the path of the entry.
join-render :
    (cs : List (List ℕ)) (c : List ℕ) → AreNames cs → join (render cs) c ≡ render (cs ++ (c ∷ []))
unfolding join
join-render [] c h = rw (render-append [] c) (unfold render flat str_eq in refl)
join-render ([] ∷ cs) c h = absurd h.0
join-render ((x ∷ d) ∷ cs) c h =
    rw (render-append ((x ∷ d) ∷ cs) c) (unfold render flat str_eq in refl)

-- For a path that is a `/` before each of one or more nonempty names without a `/`, joining what
-- `extract_prev_path` and `extract_filename` return gives the path back.
pub join-split :
    (cs : List (List ℕ)) (c : List ℕ)
    → AreNames cs
    → IsName c
    → let path = render (cs ++ (c ∷ [])) in
      join (extract_prev_path path) (extract_filename path) ≡ path
join-split cs c hs h = let s = split-render cs c h in rw (s.0, s.1) (join-render cs c hs)

count-append : (s t : List ℕ) → count_slashes (s ++ t) ≡ count_slashes s + count_slashes t
unfolding count_slashes
count-append [] t = omega arith
count-append (x ∷ s) t = omega (arith, count-append s t)

count-NoSlash : (s : List ℕ) → NoSlash s → count_slashes s ≡ 0
unfolding count_slashes
count-NoSlash [] h = refl
count-NoSlash (x ∷ s) h = ground (arith, count-NoSlash s h.1)

count-flat : (cs : List (List ℕ)) → AreNames cs → count_slashes (flat cs) ≡ length cs
unfolding flat count_slashes
count-flat [] h = refl
count-flat (c ∷ cs) h =
    omega (
      arith,
      count-append c (flat cs),
      count-NoSlash c (NoSlash-of_IsName c h.0),
      count-flat cs h.1,
    )

-- `path_depth` counts the components of an absolute path.
pub path_depth-render : (cs : List (List ℕ)) → AreNames cs → path_depth (render cs) ≡ length cs
unfolding path_depth render flat count_slashes skip_slash str_eq
path_depth-render [] h = refl
path_depth-render ([] ∷ cs) h = absurd h.0
path_depth-render ((x ∷ c) ∷ cs) h = ground (arith, count-flat ((x ∷ c) ∷ cs) h)
