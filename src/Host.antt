-- ===== src/Host.antt =====
-- shared/nqcppsdk/nq/plugin_error.hpp, feature_host.hpp and adapter_host.hpp: shared objects that are
-- loaded, checked and closed again, and the objects that own what a plugin creates. The linker and
-- the functions of a plugin are parameters.
pub mod Loading
pub mod Hexadecimal
pub mod Ownership
pub mod OneOwner
use nqbook.Prelude.{
  ℕ, zero, suc, ◌+◌, ◌-◌, ◌*◌, ◌/◌, ◌%◌, ◌^◌, Bool, true, false, not, ◌&&◌, List, [], ◌∷◌, ◌++◌,
  Option, none, some, is_some, ltb, leb, ◌==◌, if◌then◌else◌,
}
use nqbook.Prelude.Outcome.{Result, ok, err, ◌>>=◌, ◌>>◌, guard, require}
use nqbook.Prelude.Text.{Text, codes}

-- PluginLoadError, AbiMismatchError, PluginInitError, and PluginError itself
pub data PluginError : Type 0 where
  load_error abi_mismatch init_error other_error : PluginError

-- what the constructors throw: the class of the exception and its message
pub record Thrown : Type 0 where
  pub kind : PluginError
  pub message : Text

-- the digit of a nibble
unfoldable pub hex_digit : ℕ → ℕ
hex_digit d = if ltb d 10 then b'0' + d else b'a' + (d - 10)

-- the loop of Hex over the `k` last nibbles, from the first of them on
unfoldable pub hex_digits : ℕ → ℕ → Text
hex_digits zero v = []
hex_digits (suc k) v = hex_digit (v / 16 ^ k % 16) ∷ hex_digits k v

-- Hex
unfoldable pub hex : ℕ → Text
hex v = codes "0x" ++ hex_digits 16 v

-- nq_schema, less the version and the columns themselves; `has_cols` is whether `cols` is not null
pub record Schema : Type 0 where
  pub abi_hash : ℕ
  pub requirement : ℕ
  pub ncol : ℕ
  pub has_cols : Bool

-- nq_adapter_schema; a null name is `none`
pub record AdapterSchema : Type 0 where
  pub abi_hash : ℕ
  pub name : Option Text
  pub provides : ℕ

-- dlopen, dlsym, dlclose on the handles that are open, and what nq_describe returns. A symbol is an
-- address. dlclose takes back one dlopen.
pub record Linker : Type 0 where
  pub dlopen : Text → Option ℕ
  pub dlerror : Text
  pub dlsym : ℕ → Text → Option ℕ
  pub describe : ℕ → Option Schema
  pub adapter_describe : ℕ → Option AdapterSchema
  pub host_hash : ℕ
  pub host_adapter_hash : ℕ

unfoldable pub dlclose : ℕ → List ℕ → List ℕ
dlclose h [] = []
dlclose h (g ∷ gs) = let rest = dlclose h gs in if h == g then gs else g ∷ rest

pub record PluginFns : Type 0 where
  pub describe : ℕ
  pub init : ℕ
  pub destroy : ℕ
  pub on_event : ℕ
  pub read : ℕ
  pub on_control : ℕ

pub record AdapterFns : Type 0 where
  pub describe : ℕ
  pub init : ℕ
  pub next : ℕ
  pub instrument : ℕ
  pub destroy : ℕ

-- Plugin and AdapterPlugin; a moved one has no handle
pub record Plugin : Type 0 where
  pub path : Text
  pub handle : Option ℕ
  pub fns : PluginFns
  pub schema : Schema

pub record AdapterPlugin : Type 0 where
  pub path : Text
  pub handle : Option ℕ
  pub fns : AdapterFns
  pub schema : AdapterSchema

-- the `catch` of the constructors, which closes the handle
unfoldable pub closing {ℓ} : {A : Type ℓ} → ℕ → List ℕ → Result Thrown A → Result Thrown A × List ℕ
closing h libs (ok a) = (ok a, libs)
closing h libs (err e) = (err e, dlclose h libs)

module _ (l : Linker) where
  -- Resolve
  unfoldable pub resolve_symbol : Text → ℕ → Text → Result Thrown ℕ
  resolve_symbol path h name =
      require
        (record {
          kind = load_error;
          message = codes "missing symbol " ++ (name ++ (codes ": " ++ path));
        })
        (l.dlsym h name)

  -- the body of the `try` of Plugin::Plugin
  unfoldable pub check_plugin : Text → ℕ → Result Thrown Plugin
  check_plugin path h = do
    describe ← resolve_symbol path h (codes "nq_describe")
    init ← resolve_symbol path h (codes "nq_init")
    destroy ← resolve_symbol path h (codes "nq_destroy")
    on_event ← resolve_symbol path h (codes "nq_on_event")
    read ← resolve_symbol path h (codes "nq_read")
    on_control ← resolve_symbol path h (codes "nq_on_control")
    schema ←
        require
          (record { kind = load_error; message = codes "nq_describe returned null: " ++ path })
          (l.describe describe)
    guard (schema.abi_hash == l.host_hash) (record {
      kind = abi_mismatch;
      message =
          codes "abi hash mismatch: "
          ++ (path
              ++ (codes " built against "
                  ++ (hex schema.abi_hash ++ (codes ", host is " ++ hex l.host_hash))));
    })
    guard (not (ltb 0 schema.ncol && not schema.has_cols))
        (record { kind = load_error; message = codes "schema has no columns: " ++ path })
    ok (record {
      path = path;
      handle = some h;
      fns = record {
        describe = describe;
        init = init;
        destroy = destroy;
        on_event = on_event;
        read = read;
        on_control = on_control;
      };
      schema = schema;
    })

  -- the body of the `try` of AdapterPlugin::AdapterPlugin
  unfoldable pub check_adapter : Text → ℕ → Result Thrown AdapterPlugin
  check_adapter path h = do
    describe ← resolve_symbol path h (codes "nq_adapter_describe")
    init ← resolve_symbol path h (codes "nq_adapter_init")
    next ← resolve_symbol path h (codes "nq_adapter_next")
    instrument ← resolve_symbol path h (codes "nq_adapter_instrument")
    destroy ← resolve_symbol path h (codes "nq_adapter_destroy")
    schema ←
        require
          (record {
            kind = load_error;
            message = codes "nq_adapter_describe returned null: " ++ path;
          })
          (l.adapter_describe describe)
    guard (schema.abi_hash == l.host_adapter_hash) (record {
      kind = abi_mismatch;
      message =
          codes "adapter abi hash mismatch: "
          ++ (path
              ++ (codes " built against "
                  ++ (hex schema.abi_hash ++ (codes ", host is " ++ hex l.host_adapter_hash))));
    })
    guard (is_some schema.name)
        (record { kind = load_error; message = codes "adapter schema has no name: " ++ path })
    ok (record {
      path = path;
      handle = some h;
      fns = record {
        describe = describe;
        init = init;
        next = next;
        instrument = instrument;
        destroy = destroy;
      };
      schema = schema;
    })

  unfoldable pub dlopen_failed : Text → Thrown
  dlopen_failed path = record {
    kind = load_error;
    message = codes "dlopen failed: " ++ (path ++ (codes ": " ++ l.dlerror));
  }

  -- Plugin::Plugin, with the open handles before and after
  unfoldable pub new_plugin : Text → List ℕ → Result Thrown Plugin × List ℕ
  new_plugin path libs = elim (l.dlopen path) [
    | none ↦ (err (dlopen_failed path), libs)
    | some h ↦ closing h (h ∷ libs) (check_plugin path h)
  ]

  -- AdapterPlugin::AdapterPlugin
  unfoldable pub new_adapter : Text → List ℕ → Result Thrown AdapterPlugin × List ℕ
  new_adapter path libs = elim (l.dlopen path) [
    | none ↦ (err (dlopen_failed path), libs)
    | some h ↦ closing h (h ∷ libs) (check_adapter path h)
  ]

-- `if (handle_) ::dlclose(handle_)`, the destructors of both
unfoldable pub close_handle : Option ℕ → List ℕ → List ℕ
close_handle none libs = libs
close_handle (some h) libs = dlclose h libs
