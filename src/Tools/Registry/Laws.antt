-- ===== src/Tools/Registry/Laws.antt =====
-- The list of tools and the index by name agree, and each name stands for one tool.
use mathlib.Core.Path.{subst}
use langchain_cpp.Base.{
  ◌≡◌, refl, ap, ◌∙◌, Bool-cases, false, List, [], ◌∷◌, ◌++◌, none, some, arith, if◌then◌else◌,
  Option-cases, ◌⊎◌, inl, inr,
}
use langchain_cpp.Base.Text.{Text, codes, text_eq, text_eq_iff}
use langchain_cpp.Base.Dict.{Dict, Distinct, lookup, insert, lookup-insert}
use langchain_cpp.Base.Outcome.{ok, throws}
use langchain_cpp.Tools.Tool.{Tool}
use langchain_cpp.Tools.Registry.{ToolRegistry, empty_registry, add, get}

module _ {V W : Type 0} where
  -- The tools, each under its name.
  abbrev pub index : List (Tool V W) → Dict (Tool V W)
  index [] = []
  index (t ∷ ts) = (t.name, t) ∷ index ts

  pub record IsValid (r : ToolRegistry V W) : Type 0 where
    pub indexed : r.by_name ≡ index r.tools
    pub distinct : Distinct (index r.tools)

  IsValid-empty : IsValid empty_registry
  IsValid-empty = record { indexed = refl; distinct = tt }

  insert_new :
      (t : Tool V W) (ts : List (Tool V W))
      → lookup t.name (index ts) ≡ none
      → insert t.name t (index ts) ≡ index (ts ++ t ∷ [])
  unfolding insert
  insert_new t [] h = refl
  insert_new t (u ∷ ts) h = ground (arith, insert_new t ts)

  lookup-index-concat :
      (k : Text) (t : Tool V W) (ts : List (Tool V W))
      → lookup k (index ts) ≡ none
      → text_eq t.name k ≡ false
      → lookup k (index (ts ++ t ∷ [])) ≡ none
  lookup-index-concat k t [] h ne = ground arith
  lookup-index-concat k t (u ∷ ts) h ne = ground (arith, lookup-index-concat k t ts)

  Distinct-concat :
      (t : Tool V W) (ts : List (Tool V W))
      → Distinct (index ts)
      → lookup t.name (index ts) ≡ none
      → Distinct (index (ts ++ t ∷ []))
  Distinct-concat t [] d h = (refl, tt)
  Distinct-concat t (u ∷ ts) d h = (
    ground (
      arith,
      lookup-index-concat u.name t ts,
      text_eq_iff t.name u.name,
      text_eq_iff u.name t.name,
    ),
    Distinct-concat t ts d.1 (ground arith),
  )

  abbrev registered : Tool V W → ToolRegistry V W → ToolRegistry V W
  registered t r = record { tools = r.tools ++ t ∷ []; by_name = insert t.name t r.by_name }

  registered-IsValid :
      (t : Tool V W) (r : ToolRegistry V W)
      → IsValid r
      → lookup t.name r.by_name ≡ none
      → IsValid (registered t r)
  registered-IsValid t r v free =
      let free' : lookup t.name (index r.tools) ≡ none =
        subst (λ d. lookup t.name d ≡ none) v.indexed free in
      record {
        indexed = ap (insert t.name t) v.indexed ∙ insert_new t r.tools free';
        distinct = Distinct-concat t r.tools v.distinct free';
      }

  -- Registering a tool keeps the registry valid.
  pub add-IsValid :
      (t : Tool V W) (r r' : ToolRegistry V W) → IsValid r → add t r ≡ ok r' → IsValid r'
  unfolding add
  add-IsValid t r r' v e = elim (Option-cases (lookup t.name r.by_name)) [
    | inl free ↦ subst IsValid (ground arith) (registered-IsValid t r v free)
    | inr (old, taken) ↦ ground arith
  ]

  -- Either the name of a tool is free, and then registering it puts it behind the others, its name finds
  -- it, and every other name finds what it found before; or its name is taken, and then registering it
  -- throws the error that gives the name.
  pub get-add :
      (t : Tool V W) (r : ToolRegistry V W)
      → ((get t.name r ≡ none)
          × ((r' : ToolRegistry V W) × (add t r ≡ ok r')
              × (r'.tools ≡ r.tools ++ t ∷ [])
              × ((k : Text) → get k r' ≡ (if text_eq t.name k then some t else get k r))))
        ⊎ ((old : Tool V W) × (get t.name r ≡ some old)
            × (add t r
                ≡ throws (
                    codes "ToolRegistry: a tool named '"
                    ++ (t.name ++ codes "' is already registered"))))
  unfolding add get
  get-add t r = elim (Option-cases (lookup t.name r.by_name)) [
    | inl free ↦
        inl (free, (registered t r, ground arith, refl, λ k. lookup-insert t.name k t r.by_name))
    | inr (old, taken) ↦ inr (old, taken, ground arith)
  ]

  lookup-index :
      (k : Text) (ts : List (Tool V W)) (t : Tool V W)
      → lookup k (index ts) ≡ some t
      → (before : List (Tool V W)) × (after : List (Tool V W)) × (ts ≡ before ++ t ∷ after)
        × (t.name ≡ k)
  lookup-index k [] t h = cc
  lookup-index k (u ∷ ts) t h = elim (Bool-cases (text_eq u.name k)) [
    | inl same ↦ ([], ts, ground arith, ground (arith, text_eq_iff u.name k))
    | inr differs ↦
        let (before, after, splits, named) = lookup-index k ts t (ground arith) in
        (u ∷ before, after, ap (λ l. u ∷ l) splits, named)
  ]

  -- What `get` finds is one of the registered tools, and has the name that was asked for.
  pub get_sound :
      (k : Text) (r : ToolRegistry V W) (t : Tool V W)
      → IsValid r
      → get k r ≡ some t
      → (before : List (Tool V W)) × (after : List (Tool V W)) × (r.tools ≡ before ++ t ∷ after)
        × (t.name ≡ k)
  unfolding get
  get_sound k r t v h = lookup-index k r.tools t (subst (λ d. lookup k d ≡ some t) v.indexed h)
