-- ===== src/Feature/CatalogColumns.antt =====
-- src/Feature/FeatureCatalog.cpp: which column of which plugin each column of a catalog is.
use nqbook.Prelude.{
  ℕ, zero, suc, ◌+◌, ◌≡◌, refl, sym, ap, ◌∙◌, subst, List, [], ◌∷◌, ◌++◌, some, take, arith, length,
  length-append, take-append, get_elem?,
}
use nqbook.Prelude.Text.{Text, codes}
use nqbook.Nlib.{Nlib}
use nqbook.Feature.Double.{Double}
use nqbook.Feature.Instances.{Instances}
use nqbook.Feature.NewEngine.{all_columns}
use nqbook.Feature.CatalogInvariant.{get_elem?-append_right, append-cons}
use nqbook.Feature.Catalog.{SchemaColumn, ColumnInfo, or_empty, PluginLoader, columns_from}

get_elem?-append_left :
    {A : Type 0} (xs ys : List A) (i : ℕ) (x : A)
    → get_elem? xs i ≡ some x
    → get_elem? (xs ++ ys) i ≡ some x
get_elem?-append_left [] ys i x h = cc
get_elem?-append_left (y ∷ xs) ys zero x h = h
get_elem?-append_left (y ∷ xs) ys (suc i) x h = get_elem?-append_left xs ys i x h

take-append_left :
    {A : Type 0} (xs ys : List A) (i : ℕ) (x : A)
    → get_elem? xs i ≡ some x
    → take i (xs ++ ys) ≡ take i xs
take-append_left [] ys i x h = cc
take-append_left (y ∷ xs) ys zero x h = refl
take-append_left (y ∷ xs) ys (suc i) x h = ap (◌∷◌ y) (take-append_left xs ys i x h)

module _ {nlib : Nlib} {D : Double} (P : Instances nlib D) where
  pub length-columns_from :
      (name : Text) (index i : ℕ) (cs : List SchemaColumn)
      → length (columns_from P name index i cs) ≡ length cs
  unfolding columns_from
  length-columns_from name index i [] = refl
  length-columns_from name index i (c ∷ cs) = ap suc (length-columns_from name index (suc i) cs)

  pub all_columns-append :
      (ps : List (Instances.Plugin P)) (p : Instances.Plugin P)
      → all_columns P (ps ++ p ∷ []) ≡ all_columns P ps + P.schema_ncol p
  unfolding all_columns
  all_columns-append [] p = omega arith
  all_columns-append (q ∷ qs) p = omega (arith, all_columns-append qs p)

module _ {nlib : Nlib} {D : Double} (P : Instances nlib D) (l : PluginLoader P) where
  -- Column `c`, number `j` of all, is the column of its plugin's schema that it says it is: it stands
  -- behind the columns of the plugins before and those before it in the schema, is called by the name
  -- of the plugin, a point and its name there, and has its unit, text and kind.
  pub record OfSchema (plugins : List (Instances.Plugin P)) (names : List Text) (j : ℕ)
      (c : ColumnInfo) : Type 0 where
    pub plugin : Instances.Plugin P
    pub name : Text
    pub column : SchemaColumn
    pub has_plugin : get_elem? plugins c.plugin_index ≡ some plugin
    pub has_name : get_elem? names c.plugin_index ≡ some name
    pub has_column : get_elem? (l.columns_of plugin) c.local_index ≡ some column
    pub place : j ≡ all_columns P (take c.plugin_index plugins) + c.local_index
    pub called : c.name ≡ name ++ (codes "." ++ or_empty column.name)
    pub unit : c.unit ≡ or_empty column.unit
    pub doc : c.doc ≡ or_empty column.doc
    pub kind : c.kind ≡ column.kind

  abbrev pub AllOfSchema : List (Instances.Plugin P) → List Text → ℕ → List ColumnInfo → Type 0
  AllOfSchema plugins names j [] = Unit {0}
  AllOfSchema plugins names j (c ∷ cs) =
      OfSchema plugins names j c × AllOfSchema plugins names (suc j) cs

  OfSchema-append :
      (plugins : List (Instances.Plugin P)) (names : List Text) (j : ℕ) (c : ColumnInfo)
      (p : Instances.Plugin P) (name : Text)
      → OfSchema plugins names j c
      → OfSchema (plugins ++ p ∷ []) (names ++ name ∷ []) j c
  OfSchema-append plugins names j c p name k = record {
    plugin = k.plugin;
    name = k.name;
    column = k.column;
    has_plugin = get_elem?-append_left plugins (p ∷ []) c.plugin_index k.plugin k.has_plugin;
    has_name = get_elem?-append_left names (name ∷ []) c.plugin_index k.name k.has_name;
    has_column = k.has_column;
    place = rw (take-append_left plugins (p ∷ []) c.plugin_index k.plugin k.has_plugin) k.place;
    called = k.called;
    unit = k.unit;
    doc = k.doc;
    kind = k.kind;
  }

  -- The columns of the plugins before keep their places.
  AllOfSchema-append_plugin :
      (plugins : List (Instances.Plugin P)) (names : List Text) (j : ℕ) (cs : List ColumnInfo)
      (p : Instances.Plugin P) (name : Text)
      → AllOfSchema plugins names j cs
      → AllOfSchema (plugins ++ p ∷ []) (names ++ name ∷ []) j cs
  AllOfSchema-append_plugin plugins names j [] p name k = tt
  AllOfSchema-append_plugin plugins names j (c ∷ cs) p name (one, k) = (
    OfSchema-append plugins names j c p name one,
    AllOfSchema-append_plugin plugins names (suc j) cs p name k,
  )

  AllOfSchema-append :
      (plugins : List (Instances.Plugin P)) (names : List Text) (j : ℕ) (cs ds : List ColumnInfo)
      → AllOfSchema plugins names j cs
      → AllOfSchema plugins names (j + length cs) ds
      → AllOfSchema plugins names j (cs ++ ds)
  AllOfSchema-append plugins names j [] ds k m =
      subst (λ (i : ℕ). AllOfSchema plugins names i ds) (omega arith) m
  AllOfSchema-append plugins names j (c ∷ cs) ds (one, k) m = (
    one,
    AllOfSchema-append plugins names (suc j) cs ds k
        (subst (λ (i : ℕ). AllOfSchema plugins names i ds) (omega arith) m),
  )

  columns_from-AllOfSchema :
      (plugins : List (Instances.Plugin P)) (names : List Text) (p : Instances.Plugin P)
      (name : Text)
      → length names ≡ length plugins
      → (before cs : List SchemaColumn) → before ++ cs ≡ l.columns_of p
      → AllOfSchema
          (plugins ++ p ∷ [])
          (names ++ name ∷ [])
          (all_columns P plugins + length before)
          (columns_from P name (length plugins) (length before) cs)
  unfolding columns_from
  columns_from-AllOfSchema plugins names p name same before [] e = tt
  columns_from-AllOfSchema plugins names p name same before (c ∷ cs) e = (
    record {
      plugin = p;
      name = name;
      column = c;
      has_plugin = get_elem?-append_right plugins p [];
      has_name =
          ap (get_elem? (names ++ name ∷ [])) (sym same) ∙ get_elem?-append_right names name [];
      has_column =
          ap (λ (s : List SchemaColumn). get_elem? s (length before)) (sym e)
          ∙ get_elem?-append_right before c cs;
      place = rw (take-append (length plugins) plugins (p ∷ []) refl) refl;
      called = refl;
      unit = refl;
      doc = refl;
      kind = refl;
    },
    subst
        (λ (i : ℕ).
          AllOfSchema (plugins ++ p ∷ []) (names ++ name ∷ [])
            (suc (all_columns P plugins + length before))
            (columns_from P name (length plugins) i cs))
        (omega (arith, length-append before (c ∷ [])))
        (subst
          (λ (i : ℕ).
            AllOfSchema (plugins ++ p ∷ []) (names ++ name ∷ []) i
              (columns_from P name (length plugins) (length (before ++ c ∷ [])) cs))
          (omega (arith, length-append before (c ∷ [])))
          (columns_from-AllOfSchema plugins names p name same (before ++ c ∷ []) cs
            (sym (append-cons before c cs) ∙ e))),
  )

  -- The columns of a catalog to which LoadPlugin adds a plugin are those of the schemas.
  pub loaded-AllOfSchema :
      (plugins : List (Instances.Plugin P)) (names : List Text) (cs : List ColumnInfo)
      (p : Instances.Plugin P) (name : Text)
      → length names ≡ length plugins
      → length cs ≡ all_columns P plugins
      → AllOfSchema plugins names 0 cs
      → AllOfSchema
          (plugins ++ p ∷ [])
          (names ++ name ∷ [])
          0
          (cs ++ columns_from P name (length plugins) 0 (l.columns_of p))
  loaded-AllOfSchema plugins names cs p name same width k =
      AllOfSchema-append (plugins ++ p ∷ []) (names ++ name ∷ []) 0 cs
        (columns_from P name (length plugins) 0 (l.columns_of p))
        (AllOfSchema-append_plugin plugins names 0 cs p name k)
        (subst
          (λ (i : ℕ).
            AllOfSchema (plugins ++ p ∷ []) (names ++ name ∷ []) i
              (columns_from P name (length plugins) 0 (l.columns_of p)))
          (omega (arith, width))
          (columns_from-AllOfSchema plugins names p name same [] (l.columns_of p) refl))
