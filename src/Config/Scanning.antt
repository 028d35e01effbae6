-- ===== src/Config/Scanning.antt =====
-- src/Config.cpp: what ScanPluginDir describes, and in which order.
use mathlib.Core.List.{Perm, perm-cons, perm-append_right_iff, perm_middle}
use mathlib.Core.List.Perm
use mathlib.Core.Path.{ap₂}
use nqbook.Prelude.{◌≡◌, subst, true, false, List, [], ◌∷◌, ◌++◌, arith, Bool-cases, inl, inr, map}
use nqbook.Prelude.Outcome.{ok, >>=-eq-ok}
use nqbook.Prelude.Text.{codes, eq_text→≡, eq_text_refl}
use nqbook.Config.{load_params_file}
use nqbook.Config.Files.{
  FileSystem, PluginFile, ltb_text, ltb_text_asym, describe_plugin_file, is_plugin, plugins_in,
  insert_file, sort_files, describe_all, scan_plugin_dir,
}

module _ (fs : FileSystem) where
  open fs use {FilePath, filename, extension, is_regular, entries}

  -- no file stands in front of one with an earlier name
  abbrev pub InOrder : List FilePath → Type 0
  InOrder [] = Unit {0}
  InOrder (p ∷ []) = Unit {0}
  InOrder (p ∷ q ∷ qs) = (ltb_text (filename q) (filename p) ≡ false) × InOrder (q ∷ qs)

  insert_file-InOrder :
      (p : FilePath) (qs : List FilePath) → InOrder qs → InOrder (insert_file fs p qs)
  unfolding insert_file
  insert_file-InOrder p [] o = tt
  insert_file-InOrder p (q ∷ []) o = elim (Bool-cases (ltb_text (filename q) (filename p))) [
    | inl later ↦ rw later (ltb_text_asym (filename q) (filename p) later, tt)
    | inr first ↦ rw first (first, tt)
  ]
  insert_file-InOrder p (q ∷ r ∷ rs) (h, o) =
      elim (Bool-cases (ltb_text (filename q) (filename p))) [
        | inr first ↦ rw first (first, (h, o))
        | inl later ↦
            let rec = insert_file-InOrder p (r ∷ rs) o in
            elim (Bool-cases (ltb_text (filename r) (filename p))) [
              | inl behind ↦ rw (later, behind) (h, rw behind at rec)
              | inr here ↦
                  rw (later, here) (ltb_text_asym (filename q) (filename p) later, (here, o))
            ]
      ]

  sort_files-InOrder : (ps : List FilePath) → InOrder (sort_files fs ps)
  unfolding sort_files
  sort_files-InOrder [] = tt
  sort_files-InOrder (p ∷ ps) = insert_file-InOrder p (sort_files fs ps) (sort_files-InOrder ps)

  insert_file-perm : (p : FilePath) (qs : List FilePath) → Perm (insert_file fs p qs) (p ∷ qs)
  unfolding insert_file
  insert_file-perm p [] = Perm.refl (p ∷ [])
  insert_file-perm p (q ∷ qs) = elim (Bool-cases (ltb_text (filename q) (filename p))) [
    | inr first ↦ rw first (Perm.refl (p ∷ q ∷ qs))
    | inl later ↦ rw later (Perm.trans ((perm-cons q).1 (insert_file-perm p qs)) (Perm.swap p q qs))
  ]

  sort_files-perm : (ps : List FilePath) → Perm (sort_files fs ps) ps
  unfolding sort_files
  sort_files-perm [] = Perm.refl []
  sort_files-perm (p ∷ ps) =
      Perm.trans (insert_file-perm p (sort_files fs ps)) ((perm-cons p).1 (sort_files-perm ps))

  describe_plugin_file-path :
      (p : FilePath) (f : PluginFile fs) → describe_plugin_file fs p ≡ ok f → f.path ≡ p
  unfolding describe_plugin_file
  describe_plugin_file-path p f h = elim (Bool-cases (is_regular (fs.params_of p))) [
    | inl has_params ↦
        let (kvs, loaded, made) =
          >>=-eq-ok (load_params_file (fs.contents (fs.params_of p))) _ (rw has_params at h) in
        ground (arith, made)
    | inr bare ↦ ground (arith, rw bare at h)
  ]

  describe_all-path :
      (ps : List FilePath) (files : List (PluginFile fs))
      → describe_all fs ps ≡ ok files
      → map (λ (f : PluginFile fs). f.path) files ≡ ps
  unfolding describe_all
  describe_all-path [] files h = ground (arith, h)
  describe_all-path (p ∷ ps) files h =
      let (f, one, h1) = >>=-eq-ok (describe_plugin_file fs p) _ h in
      let (rest, more, h2) = >>=-eq-ok (describe_all fs ps) _ h1 in
      let made : f ∷ rest ≡ files = ground (arith, h2) in
      subst (λ (l : List (PluginFile fs)). map (λ (f : PluginFile fs). f.path) l ≡ p ∷ ps) made
        (ap₂ ◌∷◌ (describe_plugin_file-path p f one) (describe_all-path ps rest more))

  -- what ScanPluginDir looks for: a regular file with the extension `.so`
  abbrev pub SharedObject : FilePath → Type 0
  SharedObject p = (is_regular p ≡ true) × (extension p ≡ codes ".so")

  abbrev pub AllShared : List FilePath → Type 0
  AllShared [] = Unit {0}
  AllShared (p ∷ ps) = SharedObject p × AllShared ps

  abbrev pub NoneShared : List FilePath → Type 0
  NoneShared [] = Unit {0}
  NoneShared (p ∷ ps) = (¬ (SharedObject p)) × NoneShared ps

  is_plugin-SharedObject : (p : FilePath) → is_plugin fs p ≡ true → SharedObject p
  unfolding is_plugin
  is_plugin-SharedObject p h =
      (ground (arith, h), eq_text→≡ (extension p) (codes ".so") (ground (arith, h)))

  SharedObject-is_plugin : (p : FilePath) → SharedObject p → is_plugin fs p ≡ true
  unfolding is_plugin
  SharedObject-is_plugin p (regular, ext) = rw (regular, ext) (eq_text_refl (codes ".so"))

  -- The chosen paths and the other ones are all paths.
  plugins_in-split :
      (ps : List FilePath)
      → AllShared (plugins_in fs ps)
        × ((others : List FilePath) × NoneShared others × Perm (plugins_in fs ps ++ others) ps)
  unfolding plugins_in
  plugins_in-split [] = (tt, ([], tt, Perm.refl []))
  plugins_in-split (p ∷ ps) =
      let (shared, (others, unlike, same)) = plugins_in-split ps in
      elim (Bool-cases (is_plugin fs p)) [
        | inl so ↦
            rw so ((is_plugin-SharedObject p so, shared), (others, unlike, (perm-cons p).1 same))
        | inr not_so ↦
            let other : ¬ (SharedObject p) = (λ s. cc (SharedObject-is_plugin p s, not_so)) in
            let joined : Perm (plugins_in fs ps ++ (p ∷ others)) (p ∷ ps) =
              Perm.trans (perm_middle (plugins_in fs ps) others) ((perm-cons p).1 same) in
            rw not_so (shared, (p ∷ others, (other, unlike), joined))
      ]

  insert_file-AllShared :
      (p : FilePath) (qs : List FilePath)
      → SharedObject p
      → AllShared qs
      → AllShared (insert_file fs p qs)
  unfolding insert_file
  insert_file-AllShared p [] s k = (s, tt)
  insert_file-AllShared p (q ∷ qs) s (here, k) =
      elim (Bool-cases (ltb_text (filename q) (filename p))) [
        | inl later ↦ rw later (here, insert_file-AllShared p qs s k)
        | inr first ↦ rw first (s, (here, k))
      ]

  sort_files-AllShared : (ps : List FilePath) → AllShared ps → AllShared (sort_files fs ps)
  unfolding sort_files
  sort_files-AllShared [] k = tt
  sort_files-AllShared (p ∷ ps) (s, k) =
      insert_file-AllShared p (sort_files fs ps) s (sort_files-AllShared ps k)

  -- ScanPluginDir, where it returns, describes exactly the regular files of the directory with the
  -- extension `.so`: the entries of the directory are, each as often as it is there, the described
  -- paths, which are all such files, and others, none of which is. The described paths stand in the
  -- order of their names.
  pub scan_plugin_dir-InOrder :
      (dir : FilePath) (files : List (PluginFile fs))
      → scan_plugin_dir fs dir ≡ ok files
      → InOrder (map (λ (f : PluginFile fs). f.path) files)
        × AllShared (map (λ (f : PluginFile fs). f.path) files)
        × ((others : List FilePath) × NoneShared others
            × Perm (map (λ (f : PluginFile fs). f.path) files ++ others) (entries dir))
  unfolding scan_plugin_dir
  scan_plugin_dir-InOrder dir files h =
      let found : List FilePath = plugins_in fs (entries dir) in
      let paths = describe_all-path (sort_files fs found) files h in
      let (shared, (others, unlike, same)) = plugins_in-split (entries dir) in
      rw paths (
        sort_files-InOrder found,
        sort_files-AllShared found shared,
        (
          others,
          unlike,
          Perm.trans ((perm-append_right_iff others).1 (sort_files-perm found)) same,
        ),
      )
