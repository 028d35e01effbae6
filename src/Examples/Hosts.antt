-- ===== src/Examples/Hosts.antt =====
-- The theorems on loaded plugins, with a linker that knows one library, and on the files of a machine.
use mathlib.Core.List.{Perm}
use nqbook.Prelude.{
  ℕ, ◌≡◌, refl, ◌⊎◌, true, not, List, [], ◌∷◌, ◌++◌, none, some, map, if◌then◌else◌, arith,
}
use nqbook.Prelude.Outcome.{ok, err}
use nqbook.Prelude.Text.{Text, codes, eq_text, has}
use nqbook.Config.Files.{
  FileSystem, PluginFile, describe_plugin_file, plugins_in, is_plugin, insert_file, sort_files,
  describe_all, scan_plugin_dir, ltb_text,
}
use nqbook.Config.Scanning.{InOrder, AllShared, NoneShared, scan_plugin_dir-InOrder}
use nqbook.Host.{Thrown, Linker, Plugin, AdapterPlugin, new_plugin, new_adapter, close_handle}
use nqbook.Host.Loading.{Loaded, AdapterLoaded, new_plugin-Loaded, new_adapter-AdapterLoaded}
use nqbook.Host.Ownership.{
  Op, create, construct, construct_instance, move_to_new, assign, destroy, perform, perform_all,
  create_instance, move_construct, move_assign, release, no_owners,
}
use nqbook.Host.OneOwner.{OneOwner, no_owners-OneOwner, perform_all-OneOwner}

abbrev path : Text
path = codes "ema.so"

abbrev linker : Linker
linker = record {
  dlopen = λ p. if eq_text p path then some 3 else none;
  dlerror = codes "no such file";
  dlsym = λ h name. some 1000;
  describe = λ a. some (record { abi_hash = 17; requirement = 0; ncol = 2; has_cols = true });
  adapter_describe = λ a. some (record { abi_hash = 18; name = some (codes "ema"); provides = 0 });
  host_hash = 17;
  host_adapter_hash = 18;
}

new_plugin-Loaded_example :
    ((e : Thrown) × ((new_plugin linker path (5 ∷ [])).0 ≡ err e)
      × ((new_plugin linker path (5 ∷ [])).1 ≡ 5 ∷ []))
    ⊎ ((h : ℕ) × (p : Plugin) × ((new_plugin linker path (5 ∷ [])).0 ≡ ok p)
        × ((new_plugin linker path (5 ∷ [])).1 ≡ h ∷ 5 ∷ [])
        × Loaded linker path h p
        × (close_handle p.handle (new_plugin linker path (5 ∷ [])).1 ≡ 5 ∷ []))
new_plugin-Loaded_example = new_plugin-Loaded linker path (5 ∷ [])

new_adapter-AdapterLoaded_example :
    ((e : Thrown) × ((new_adapter linker path []).0 ≡ err e)
      × ((new_adapter linker path []).1 ≡ []))
    ⊎ ((h : ℕ) × (p : AdapterPlugin) × ((new_adapter linker path []).0 ≡ ok p)
        × ((new_adapter linker path []).1 ≡ h ∷ [])
        × AdapterLoaded linker path h p
        × (close_handle p.handle (new_adapter linker path []).1 ≡ []))
new_adapter-AdapterLoaded_example = new_adapter-AdapterLoaded linker path []

-- two instances, the first of which moves to a third object and that one back over the second
abbrev moves : List Op
moves = create ∷ construct 1 ∷ move_to_new 0 ∷ assign 1 2 ∷ destroy 0 ∷ destroy 1 ∷ destroy 2 ∷ []

perform_all-OneOwner_example : OneOwner (perform_all no_owners moves)
unfolding perform create_instance construct_instance move_construct move_assign release
perform_all-OneOwner_example =
    perform_all-OneOwner no_owners moves (refl, (omega arith, tt)) no_owners-OneOwner

-- files without a point in their name are regular, and every directory holds the same two
abbrev pub machine : FileSystem
machine = record {
  FilePath = Text;
  of_text = λ t. t;
  to_text = λ p. p;
  stem = λ p. p;
  filename = λ p. p;
  extension = λ p. codes ".so";
  params_of = λ p. p ++ codes ".params";
  is_regular = λ p. not (has b'.' p);
  contents = λ p. none;
  entries = λ p. codes "vwap" ∷ codes "ema" ∷ [];
}

abbrev found : List (PluginFile machine)
found =
    record { path = codes "ema"; name = codes "ema"; params = [] }
    ∷ record { path = codes "vwap"; name = codes "vwap"; params = [] }
    ∷ []

scan_plugin_dir-InOrder_example :
    InOrder machine (map (λ (f : PluginFile machine). f.path) found)
    × AllShared machine (map (λ (f : PluginFile machine). f.path) found)
    × ((others : List Text) × NoneShared machine others
        × Perm
            (map (λ (f : PluginFile machine). f.path) found ++ others)
            (codes "vwap" ∷ codes "ema" ∷ []))
unfolding scan_plugin_dir describe_all sort_files insert_file plugins_in is_plugin
    describe_plugin_file ltb_text has eq_text
scan_plugin_dir-InOrder_example = scan_plugin_dir-InOrder machine (codes "plugins") found refl
