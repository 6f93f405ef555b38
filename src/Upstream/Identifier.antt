-- ===== src/Upstream/Identifier.antt =====
-- `backtick` of api/databricks.go and `qualified` of api/executor_upstream.go: the name of a table in
-- the text of a query.
use mathlib.Core.List.{append_assoc, append-nil}
use test_miti_check.Prelude.{
  ℕ, ◌≡◌, arith, refl, sym, ap, ◌∙◌, Bool, true, false, Option, none, some, [], ◌∷◌, ◌++◌, not, eqb,
  ◌&&◌, if◌then◌else◌, some-injective,
}
use test_miti_check.Prelude.Text.{Text, is_empty}
use test_miti_check.Api.Locator.{UpstreamRef}

-- `strings.ReplaceAll(id, "`", "``")`.
unfoldable pub doubled : Text → Text
doubled [] = []
doubled (c ∷ s) = let rest = doubled s in if eqb c 96 then 96 ∷ 96 ∷ rest else c ∷ rest

unfoldable pub backtick : Text → Text
unfolding doubled
backtick id = 96 ∷ (doubled id ++ (96 ∷ []))

abbrev pub within : Text → Text → Text
within [] name = name
within (c ∷ s) name = backtick (c ∷ s) ++ (b'.' ∷ name)

unfoldable pub qualified : UpstreamRef → Text
unfolding backtick
qualified r = within r.catalog (within r.schema (backtick r.table))

abbrev push : ℕ → Option (Text × Text) → Option (Text × Text)
push c none = none
push c (some (id, after)) = some (c ∷ id, after)

-- A quoted identifier as SQL reads it, after its opening backtick: two backticks are one, and a single
-- one ends it. The flag tells that a backtick is pending. The result is the identifier and what follows.
unfoldable pub read_identifier : Bool → Text → Option (Text × Text)
read_identifier false [] = none
read_identifier true [] = some ([], [])
read_identifier pending (c ∷ s) =
    let rest = read_identifier (not pending && eqb c 96) s in
    if pending
    then (if eqb c 96 then push c rest else some ([], c ∷ s))
    else if eqb c 96
    then rest
    else push c rest

-- What may follow an identifier in a query: not a backtick.
abbrev pub IsApart : Text → Type 0
IsApart [] = Unit
IsApart (c ∷ s) = eqb c 96 ≡ false

-- A quoted identifier, whatever its characters, is read back as exactly that identifier, whatever
-- follows it that does not start with a backtick: no identifier can end its own quotes.
pub read_identifier-backtick :
    (id after : Text)
    → IsApart after
    → read_identifier false (doubled id ++ (96 ∷ after)) ≡ some (id, after)
unfolding read_identifier doubled
read_identifier-backtick [] [] h = refl
read_identifier-backtick [] (c ∷ after) h = ground arith
read_identifier-backtick (c ∷ id) after h = ground (arith, read_identifier-backtick id after)

backtick-append : (id after : Text) → backtick id ++ after ≡ 96 ∷ (doubled id ++ (96 ∷ after))
unfolding backtick
backtick-append id after = ap (λ s. 96 ∷ s) (append_assoc (doubled id) (96 ∷ []) after)

-- The text after the opening backtick.
abbrev body : Text → Text
body [] = []
body (c ∷ s) = s

backtick-cancel :
    (a b s t : Text) → IsApart s → IsApart t → backtick a ++ s ≡ backtick b ++ t → (a ≡ b) × (s ≡ t)
backtick-cancel a b s t hs ht e =
    let inner : doubled a ++ (96 ∷ s) ≡ doubled b ++ (96 ∷ t) =
      ap body (sym (backtick-append a s) ∙ e ∙ backtick-append b t) in
    let read : (a, s) ≡ (b, t) = some-injective (
      sym (read_identifier-backtick a s hs)
      ∙ ap (read_identifier false) inner
      ∙ read_identifier-backtick b t ht) in
    (ap (λ p. p.0) read, ap (λ p. p.1) read)

within-some : (s name : Text) → is_empty s ≡ false → within s name ≡ backtick s ++ (b'.' ∷ name)
within-some [] name n = ground arith
within-some (c ∷ s) name n = refl

-- Two references with a catalog and a schema name the same table in a query only if their
-- catalogs, their schemas and their tables are the same, whatever characters they have.
pub qualified-injective :
    (r q : UpstreamRef)
    → is_empty r.catalog ≡ false
    → is_empty r.schema ≡ false
    → is_empty q.catalog ≡ false
    → is_empty q.schema ≡ false
    → qualified r ≡ qualified q
    → (r.catalog ≡ q.catalog) × (r.schema ≡ q.schema) × (r.table ≡ q.table)
unfolding qualified
qualified-injective r q rc rs qc qs e =
    let inner_r = within r.schema (backtick r.table) in
    let inner_q = within q.schema (backtick q.table) in
    let (catalogs, rest) =
      backtick-cancel r.catalog q.catalog (b'.' ∷ inner_r) (b'.' ∷ inner_q) refl refl
        (sym (within-some r.catalog inner_r rc) ∙ e ∙ within-some q.catalog inner_q qc) in
    let (schemas, last) =
      backtick-cancel r.schema q.schema (b'.' ∷ backtick r.table) (b'.' ∷ backtick q.table) refl
        refl
        (sym (within-some r.schema (backtick r.table) rs)
          ∙ ap body rest
          ∙ within-some q.schema (backtick q.table) qs) in
    let (tables, none_left) =
      backtick-cancel r.table q.table [] [] tt tt
        (append-nil (backtick r.table) ∙ ap body last ∙ sym (append-nil (backtick q.table))) in
    (catalogs, schemas, tables)
