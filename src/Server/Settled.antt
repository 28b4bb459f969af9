-- ===== src/Server/Settled.antt =====
-- Where the writes of src/gpthands/safe_write.py go, for a path that is resolved already.
use mathlib.Core.Path.{subst}
use gpthands.Prelude.{
  String, Bool, true, false, none, some, [], ◌∷◌, ◌++◌, ◌≡◌, ◌≢◌, refl, ap, sym, ◌∙◌, arith, ok,
  Result-cases, inl, inr, elem, =?_refl,
}
use gpthands.Policy.Defs.{Policy, FilePath}
use gpthands.Policy.Paths.{Resolver, inside, file_name, resolve_path}
use gpthands.Risk.{path_parts, last_or_empty}
use gpthands.SafeWrite.Defs.{file, Host}
use gpthands.SafeWrite.Stable.{
  Disk, parent_of, below, relative_text, workspace_relative, write_parent,
}

parent_of-file_name :
    (part : String) (parts : FilePath)
    → parent_of (part ∷ parts) ++ file_name (part ∷ parts) ∷ [] ≡ part ∷ parts
unfolding parent_of file_name last_or_empty
parent_of-file_name part [] = refl
parent_of-file_name part (next ∷ parts) = ap (λ path. part ∷ path) (parent_of-file_name next parts)

below-inside : (root path : FilePath) → inside root path ≡ true → root ++ below root path ≡ path
unfolding inside below
below-inside [] path h = refl
below-inside (r ∷ root) [] h = absurd (ground arith)
below-inside (r ∷ root) (part ∷ path) h = ground (arith, below-inside root path)

module _ (resolve : Resolver) (p : Policy) where
  -- The folder of the path resolves to itself, and its names below the workspace hold no slash and are
  -- neither empty nor a dot.
  pub record IsSettled (path : FilePath) : Type 0 where
    pub settled : (strict : Bool) → resolve strict (parent_of path) ≡ ok (parent_of path)
    pub clean :
        path_parts (relative_text (below p.workspace (parent_of path)))
        ≡ below p.workspace (parent_of path)

  settled-relative :
      (path : FilePath) (t : String)
      → IsSettled path
      → workspace_relative resolve p (parent_of path) ≡ ok t
      → (inside p.workspace (parent_of path) ≡ true)
        × (t ≡ relative_text (below p.workspace (parent_of path)))
  unfolding workspace_relative
  settled-relative path t h k = ground (arith, h.settled false)

  settled-resolve_path :
      (path folder : FilePath) (t : String)
      → IsSettled path
      → inside p.workspace (parent_of path) ≡ true
      → t ≡ relative_text (below p.workspace (parent_of path))
      → resolve_path resolve p t true ≡ ok folder
      → folder ≡ parent_of path
  unfolding resolve_path
  settled-resolve_path path folder t h i e k =
      let parts : p.workspace ++ path_parts t ≡ parent_of path =
        ap (λ x. p.workspace ++ path_parts x) e
        ∙ ap (λ x. p.workspace ++ x) h.clean
        ∙ below-inside p.workspace (parent_of path) i in
      ground (arith, parts, h.settled true)

  -- A write to a settled path goes to its own folder.
  pub write_parent-settled :
      (path : FilePath) (content : String) (disk : Disk) (folder : FilePath)
      → IsSettled path
      → write_parent resolve p path content disk ≡ ok folder
      → folder ++ file_name path ∷ [] ≡ path
  unfolding write_parent
  write_parent-settled [] content disk folder h k =
      absurd (unfold file_name last_or_empty elem in ground (arith, =?_refl ""))
  write_parent-settled (part ∷ parts) content disk folder h k =
      elim (Result-cases (workspace_relative resolve p (parent_of (part ∷ parts)))) [
        | inl (x, f) ↦ absurd (ground arith)
        | inr (t, f) ↦ elim (Result-cases (resolve_path resolve p t true)) [
          | inl (x, g) ↦ absurd (ground arith)
          | inr (found, g) ↦
              let (within, same) = settled-relative (part ∷ parts) t h f in
              let here : folder ≡ found = ground arith in
              ap (λ x. x ++ file_name (part ∷ parts) ∷ [])
                (here ∙ settled-resolve_path (part ∷ parts) found t h within same g)
              ∙ parent_of-file_name part parts
        ]
      ]

  -- The temporary file's name is not the target's where nothing on the disk bears it.
  pub file_name-fresh :
      (h : Host) (path : FilePath) (content data_bytes : String) (disk : Disk) (folder : FilePath)
      → write_parent resolve p path content disk ≡ ok folder
      → ((other : FilePath) → disk (other ++ h.temp_name ∷ []) ≡ none)
      → disk path ≡ some (file data_bytes)
      → file_name path ≢ h.temp_name
  unfolding write_parent
  file_name-fresh h [] content data_bytes disk folder k fresh there same =
      absurd (unfold file_name last_or_empty elem in ground (arith, =?_refl ""))
  file_name-fresh h (part ∷ parts) content data_bytes disk folder k fresh there same =
      let here : disk (parent_of (part ∷ parts) ++ file_name (part ∷ parts) ∷ []) ≡ none =
        subst (λ n. disk (parent_of (part ∷ parts) ++ n ∷ []) ≡ none) (sym same)
          (fresh (parent_of (part ∷ parts))) in
      ground (arith, here, there, parent_of-file_name part parts)
