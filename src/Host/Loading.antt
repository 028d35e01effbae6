-- ===== src/Host/Loading.antt =====
-- shared/nqcppsdk/nq/feature_host.hpp and adapter_host.hpp: the handles that the constructors leave
-- open, and what they check.
use nqbook.Prelude.{
  ℕ, ◌≡◌, refl, subst, true, false, not, ◌&&◌, List, ◌∷◌, some, is_some, ltb, ◌==◌, arith,
  Option-cases, inl, inr, ◌⊎◌,
}
use nqbook.Prelude.Outcome.{
  Result, ok, err, ◌>>=◌, guard, require, Result-cases, ok_injective, guard-eq-ok, require-eq-ok,
}
use nqbook.Prelude.Text.{Text, codes}
use nqbook.Host.{
  Thrown, Linker, Plugin, AdapterPlugin, resolve_symbol, check_plugin, check_adapter, closing,
  dlopen_failed, dlclose, close_handle, new_plugin, new_adapter,
}

dlclose_head : (h : ℕ) (libs : List ℕ) → dlclose h (h ∷ libs) ≡ libs
unfolding dlclose
dlclose_head h libs = ground arith

-- Handles are closed exactly where a constructor throws.
closing_err :
    {A : Type 0} (h : ℕ) (libs : List ℕ) (r : Result Thrown A) (e : Thrown)
    → (closing h (h ∷ libs) r).0 ≡ err e
    → (closing h (h ∷ libs) r).1 ≡ libs
unfolding closing
closing_err h libs (ok a) e thrown = cc
closing_err h libs (err x) e thrown = dlclose_head h libs

closing_ok :
    {A : Type 0} (h : ℕ) (libs : List ℕ) (r : Result Thrown A) (a : A)
    → (closing h (h ∷ libs) r).0 ≡ ok a
    → (r ≡ ok a) × ((closing h (h ∷ libs) r).1 ≡ h ∷ libs)
unfolding closing
closing_ok h libs (ok x) a made = (made, refl)
closing_ok h libs (err e) a made = cc

-- A bind that returns keeps what its rest ensures.
bind_ok {κ} :
    {A B : Type 0} {Q : B → Type κ} (m : Result Thrown A) (f : A → Result Thrown B)
    → ((a : A) (b : B) → m ≡ ok a → f a ≡ ok b → Q b)
    → (b : B) → (m >>= f) ≡ ok b
    → Q b
bind_ok (ok a) f ensures b h = ensures a b refl h
bind_ok (err e) f ensures b h = absurd (cc h)

module _ (l : Linker) where
  -- what the checks of Plugin::Plugin ensure
  pub record Loaded (path : Text) (h : ℕ) (p : Plugin) : Type 0 where
    pub path_eq : p.path ≡ path
    pub handle_eq : p.handle ≡ some h
    pub hash_eq : (p.schema.abi_hash == l.host_hash) ≡ true
    pub columns : (ltb 0 p.schema.ncol && not p.schema.has_cols) ≡ false
    pub init_eq : l.dlsym h (codes "nq_init") ≡ some p.fns.init
    pub destroy_eq : l.dlsym h (codes "nq_destroy") ≡ some p.fns.destroy
    pub on_event_eq : l.dlsym h (codes "nq_on_event") ≡ some p.fns.on_event
    pub read_eq : l.dlsym h (codes "nq_read") ≡ some p.fns.read
    pub on_control_eq : l.dlsym h (codes "nq_on_control") ≡ some p.fns.on_control

  check_plugin-Loaded :
      (path : Text) (h : ℕ) (p : Plugin) → check_plugin l path h ≡ ok p → Loaded path h p
  unfolding check_plugin resolve_symbol
  check_plugin-Loaded path h p made =
      bind_ok {Q = Loaded path h} (resolve_symbol l path h (codes "nq_describe")) _
        (λ describe p found.
          bind_ok (resolve_symbol l path h (codes "nq_init")) _
            (λ init p f1.
              bind_ok (resolve_symbol l path h (codes "nq_destroy")) _
                (λ destroy p f2.
                  bind_ok (resolve_symbol l path h (codes "nq_on_event")) _
                    (λ on_event p f3.
                      bind_ok (resolve_symbol l path h (codes "nq_read")) _
                        (λ read p f4.
                          bind_ok (resolve_symbol l path h (codes "nq_on_control")) _
                            (λ on_control p f5.
                              bind_ok (require _ (l.describe describe)) _
                                (λ schema p f6.
                                  bind_ok (guard (schema.abi_hash == l.host_hash) _) _
                                    (λ u p hash.
                                      bind_ok
                                        (guard (not (ltb 0 schema.ncol && not schema.has_cols)) _) _
                                        (λ v p columns last.
                                          subst (Loaded path h) (ok_injective last) (record {
                                            path_eq = refl;
                                            handle_eq = refl;
                                            hash_eq = guard-eq-ok _ _ hash;
                                            columns = ground (arith, guard-eq-ok _ _ columns);
                                            init_eq = require-eq-ok _ _ f1;
                                            destroy_eq = require-eq-ok _ _ f2;
                                            on_event_eq = require-eq-ok _ _ f3;
                                            read_eq = require-eq-ok _ _ f4;
                                            on_control_eq = require-eq-ok _ _ f5;
                                          }))
                                        p)
                                    p)
                                p)
                            p)
                        p)
                    p)
                p)
            p)
        p made

  -- what the checks of AdapterPlugin::AdapterPlugin ensure
  pub record AdapterLoaded (path : Text) (h : ℕ) (p : AdapterPlugin) : Type 0 where
    pub path_eq : p.path ≡ path
    pub handle_eq : p.handle ≡ some h
    pub hash_eq : (p.schema.abi_hash == l.host_adapter_hash) ≡ true
    pub named : is_some p.schema.name ≡ true
    pub init_eq : l.dlsym h (codes "nq_adapter_init") ≡ some p.fns.init
    pub next_eq : l.dlsym h (codes "nq_adapter_next") ≡ some p.fns.next
    pub instrument_eq : l.dlsym h (codes "nq_adapter_instrument") ≡ some p.fns.instrument
    pub destroy_eq : l.dlsym h (codes "nq_adapter_destroy") ≡ some p.fns.destroy

  check_adapter-AdapterLoaded :
      (path : Text) (h : ℕ) (p : AdapterPlugin)
      → check_adapter l path h ≡ ok p
      → AdapterLoaded path h p
  unfolding check_adapter resolve_symbol
  check_adapter-AdapterLoaded path h p made =
      bind_ok {Q = AdapterLoaded path h} (resolve_symbol l path h (codes "nq_adapter_describe")) _
        (λ describe p found.
          bind_ok (resolve_symbol l path h (codes "nq_adapter_init")) _
            (λ init p f1.
              bind_ok (resolve_symbol l path h (codes "nq_adapter_next")) _
                (λ next p f2.
                  bind_ok (resolve_symbol l path h (codes "nq_adapter_instrument")) _
                    (λ instrument p f3.
                      bind_ok (resolve_symbol l path h (codes "nq_adapter_destroy")) _
                        (λ destroy p f4.
                          bind_ok (require _ (l.adapter_describe describe)) _
                            (λ schema p f5.
                              bind_ok (guard (schema.abi_hash == l.host_adapter_hash) _) _
                                (λ u p hash.
                                  bind_ok (guard (is_some schema.name) _) _
                                    (λ v p named last.
                                      subst (AdapterLoaded path h) (ok_injective last) (record {
                                        path_eq = refl;
                                        handle_eq = refl;
                                        hash_eq = guard-eq-ok _ _ hash;
                                        named = guard-eq-ok _ _ named;
                                        init_eq = require-eq-ok _ _ f1;
                                        next_eq = require-eq-ok _ _ f2;
                                        instrument_eq = require-eq-ok _ _ f3;
                                        destroy_eq = require-eq-ok _ _ f4;
                                      }))
                                    p)
                                p)
                            p)
                        p)
                    p)
                p)
            p)
        p made

  -- The constructor of Plugin either throws and leaves the open handles as they were, or it opens one
  -- handle, with a plugin that has passed the checks and whose destructor closes that handle again.
  pub new_plugin-Loaded :
      (path : Text) (libs : List ℕ)
      → ((e : Thrown) × ((new_plugin l path libs).0 ≡ err e) × ((new_plugin l path libs).1 ≡ libs))
        ⊎ ((h : ℕ) × (p : Plugin) × ((new_plugin l path libs).0 ≡ ok p)
            × ((new_plugin l path libs).1 ≡ h ∷ libs)
            × Loaded path h p
            × (close_handle p.handle (new_plugin l path libs).1 ≡ libs))
  unfolding new_plugin close_handle closing
  new_plugin-Loaded path libs = elim (Option-cases (l.dlopen path)) [
    | inl missing ↦
        inl (dlopen_failed l path, rw (new_plugin, missing) refl, rw (new_plugin, missing) refl)
    | inr (h, opened) ↦ elim (Result-cases (check_plugin l path h)) [
      | inr (e, thrown) ↦ inl (
        e,
        rw (new_plugin, opened, thrown) refl,
        rw (new_plugin, opened, thrown) (dlclose_head h libs),
      )
      | inl (p, made) ↦
          let k = check_plugin-Loaded path h p made in
          inr (
            h,
            p,
            rw (new_plugin, opened, made) refl,
            rw (new_plugin, opened, made) refl,
            k,
            rw (new_plugin, opened, made, k.handle_eq) (dlclose_head h libs),
          )
    ]
  ]

  -- The constructor of AdapterPlugin either throws and leaves the open handles as they were, or it
  -- opens one handle, with an adapter that has passed the checks and whose destructor closes that
  -- handle again.
  pub new_adapter-AdapterLoaded :
      (path : Text) (libs : List ℕ)
      → ((e : Thrown) × ((new_adapter l path libs).0 ≡ err e)
          × ((new_adapter l path libs).1 ≡ libs))
        ⊎ ((h : ℕ) × (p : AdapterPlugin) × ((new_adapter l path libs).0 ≡ ok p)
            × ((new_adapter l path libs).1 ≡ h ∷ libs)
            × AdapterLoaded path h p
            × (close_handle p.handle (new_adapter l path libs).1 ≡ libs))
  unfolding new_adapter close_handle closing
  new_adapter-AdapterLoaded path libs = elim (Option-cases (l.dlopen path)) [
    | inl missing ↦
        inl (dlopen_failed l path, rw (new_adapter, missing) refl, rw (new_adapter, missing) refl)
    | inr (h, opened) ↦ elim (Result-cases (check_adapter l path h)) [
      | inr (e, thrown) ↦ inl (
        e,
        rw (new_adapter, opened, thrown) refl,
        rw (new_adapter, opened, thrown) (dlclose_head h libs),
      )
      | inl (p, made) ↦
          let k = check_adapter-AdapterLoaded path h p made in
          inr (
            h,
            p,
            rw (new_adapter, opened, made) refl,
            rw (new_adapter, opened, made) refl,
            k,
            rw (new_adapter, opened, made, k.handle_eq) (dlclose_head h libs),
          )
    ]
  ]
