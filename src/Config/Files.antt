-- ===== src/Config/Files.antt =====
-- src/Config.cpp: DescribePluginFile and ScanPluginDir, over the files of a machine.
use nqbook.Prelude.{
  ◌≡◌, refl, Bool, true, false, ◌&&◌, List, [], ◌∷◌, Option, arith, ltb, ◌==◌, if◌then◌else◌,
}
use nqbook.Prelude.Outcome.{Result, ok, ◌>>=◌}
use nqbook.Prelude.Text.{Text, codes, eq_text}
use nqbook.Config.{ConfigError, KeyValues, load_params_file}

-- The files that std::filesystem shows: the parts of a path's name, the regular files, the bytes of
-- those that open, and what a directory holds. `params_of` is the path with the extension `.params`.
pub record FileSystem : Type 1 where
  pub FilePath : Type 0
  pub of_text : Text → FilePath
  pub to_text : FilePath → Text
  pub stem : FilePath → Text
  pub filename : FilePath → Text
  pub extension : FilePath → Text
  pub params_of : FilePath → FilePath
  pub is_regular : FilePath → Bool
  pub contents : FilePath → Option Text
  pub entries : FilePath → List FilePath

-- `<` on the names of two files
unfoldable pub ltb_text : Text → Text → Bool
ltb_text [] [] = false
ltb_text [] (d ∷ t) = true
ltb_text (c ∷ s) [] = false
ltb_text (c ∷ s) (d ∷ t) = let rest = ltb_text s t in if c == d then rest else ltb c d

pub ltb_text_asym : (s t : Text) → ltb_text s t ≡ true → ltb_text t s ≡ false
unfolding ltb_text
ltb_text_asym [] [] h = refl
ltb_text_asym [] (d ∷ t) h = refl
ltb_text_asym (c ∷ s) [] h = cc
ltb_text_asym (c ∷ s) (d ∷ t) h = ground (arith, ltb_text_asym s t)

module _ (fs : FileSystem) where
  open fs use {FilePath, stem, filename, extension, params_of, is_regular, contents, entries}

  pub record PluginFile : Type 0 where
    pub path : FilePath
    pub name : Text
    pub params : KeyValues

  -- DescribePluginFile
  unfoldable pub describe_plugin_file : FilePath → Result ConfigError PluginFile
  describe_plugin_file so =
      if is_regular (params_of so)
      then (do
        kvs ← load_params_file (contents (params_of so))
        ok (record { path = so; name = stem so; params = kvs }))
      else ok (record { path = so; name = stem so; params = [] })

  -- the shared objects of a directory
  unfoldable pub is_plugin : FilePath → Bool
  is_plugin p = is_regular p && eq_text (extension p) (codes ".so")

  unfoldable pub plugins_in : List FilePath → List FilePath
  plugins_in [] = []
  plugins_in (p ∷ ps) = let rest = plugins_in ps in if is_plugin p then p ∷ rest else rest

  -- std::sort by the name of the file
  unfoldable pub insert_file : FilePath → List FilePath → List FilePath
  insert_file p [] = p ∷ []
  insert_file p (q ∷ qs) =
      let rest = insert_file p qs in
      if ltb_text (filename q) (filename p) then q ∷ rest else p ∷ q ∷ qs

  unfoldable pub sort_files : List FilePath → List FilePath
  sort_files [] = []
  sort_files (p ∷ ps) = insert_file p (sort_files ps)

  unfoldable pub describe_all : List FilePath → Result ConfigError (List PluginFile)
  describe_all [] = ok []
  describe_all (p ∷ ps) = do f ← describe_plugin_file p; fs ← describe_all ps; ok (f ∷ fs)

  -- ScanPluginDir
  unfoldable pub scan_plugin_dir : FilePath → Result ConfigError (List PluginFile)
  scan_plugin_dir dir = describe_all (sort_files (plugins_in (entries dir)))
