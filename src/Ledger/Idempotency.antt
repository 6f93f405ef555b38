-- ===== src/Ledger/Idempotency.antt =====
-- What `CreateOrGet` of api/lifecycle_store.go answers for a request id, the first time and again.
use test_miti_check.Prelude.{
  some-injective, arith, ◌≡◌, refl, sym, ap, subst, ◌∙◌, ◌⊎◌, inl, inr, Bool, true, false, none,
  some, List, [], ◌∷◌, ◌++◌, ◌==◌, eq_refl, find, any, Bool-cases,
}
use test_miti_check.Canonical.{Codec}
use test_miti_check.Ledger.Row.{Row}
use test_miti_check.Ledger.Durable.{DurableRun, durable, get_by_request}
use test_miti_check.Ledger.Store.{NewRun, row_of, insert, create_or_get}

any-find :
    (p : Row → Bool) (rows : List Row) → any p rows ≡ true → (r : Row) × (find p rows ≡ some r)
any-find p [] h = ground arith
any-find p (r ∷ rows) h = elim (Bool-cases (p r)) [
  | inl e ↦ (r, rw e refl)
  | inr e ↦ let (s, f) = any-find p rows (ground arith) in (s, rw (e, f) refl)
]

any-find-none : (p : Row → Bool) (rows : List Row) → any p rows ≡ false → find p rows ≡ none
any-find-none p [] h = refl
any-find-none p (r ∷ rows) h = ground (arith, any-find-none p rows)

find-append :
    (p : Row → Bool) (rows : List Row) (r : Row)
    → any p rows ≡ false
    → p r ≡ true
    → find p (rows ++ r ∷ []) ≡ some r
find-append p [] r h e = rw e refl
find-append p (s ∷ rows) r h e = ground (arith, find-append p rows r)

any-append :
    (p : Row → Bool) (rows : List Row) (r : Row) → p r ≡ true → any p (rows ++ r ∷ []) ≡ true
any-append p [] r e = rw e refl
any-append p (s ∷ rows) r e = ground (arith, any-append p rows r)

abbrev pub asks : NewRun → Row → Bool
asks n r = r.request_id == n.request_id

-- The table after the call, and the row whose run is answered.
pub record IsStored (n : NewRun) (rows rows' : List Row) (r : Row) (created : Bool) : Type 0 where
  pub found : find (asks n) rows' ≡ some r
  pub present : any (asks n) rows' ≡ true
  pub how :
      ((created ≡ true)
        × (any (asks n) rows ≡ false)
        × (rows' ≡ rows ++ row_of n ∷ [])
        × (r ≡ row_of n))
      ⊎ ((created ≡ false) × (rows' ≡ rows))

insert-known :
    (n : NewRun) (rows : List Row) → any (asks n) rows ≡ true → insert n rows ≡ some (rows, false)
unfolding insert
insert-known n rows h = ground arith

insert-fresh :
    (n : NewRun) (rows : List Row)
    → any (asks n) rows ≡ false
    → any (λ r. r.run_id == n.run_id) rows ≡ false
    → insert n rows ≡ some (rows ++ row_of n ∷ [], true)
unfolding insert
insert-fresh n rows h k = ground arith

insert-clash :
    (n : NewRun) (rows : List Row)
    → any (asks n) rows ≡ false
    → any (λ r. r.run_id == n.run_id) rows ≡ true
    → insert n rows ≡ none
unfolding insert
insert-clash n rows h k = ground arith

row_of-asks : (n : NewRun) → asks n (row_of n) ≡ true
unfolding row_of
row_of-asks n = eq_refl n.request_id

module _ (codec : Codec) where
  read-found :
      (n : NewRun) (rows : List Row) (r : Row)
      → find (asks n) rows ≡ some r
      → get_by_request codec n.request_id rows ≡ some (durable codec r)
  unfolding get_by_request
  read-found n rows r f = rw (get_by_request, f) refl

  known :
      (n : NewRun) (rows : List Row) (r : Row)
      → any (asks n) rows ≡ true
      → find (asks n) rows ≡ some r
      → create_or_get codec n rows ≡ some (rows, durable codec r, false)
  unfolding create_or_get
  known n rows r h f = rw (create_or_get, insert-known n rows h, read-found n rows r f) refl

  fresh :
      (n : NewRun) (rows : List Row)
      → any (asks n) rows ≡ false
      → any (λ r. r.run_id == n.run_id) rows ≡ false
      → create_or_get codec n rows ≡ some (rows ++ row_of n ∷ [], durable codec (row_of n), true)
  unfolding create_or_get
  fresh n rows h k =
      let f = find-append (asks n) rows (row_of n) h (row_of-asks n) in
      rw (create_or_get, insert-fresh n rows h k, read-found n (rows ++ row_of n ∷ []) (row_of n) f)
        refl

  clash :
      (n : NewRun) (rows : List Row)
      → any (asks n) rows ≡ false
      → any (λ r. r.run_id == n.run_id) rows ≡ true
      → create_or_get codec n rows ≡ none
  unfolding create_or_get
  clash n rows h k = rw (create_or_get, insert-clash n rows h k) refl

  -- The run that `CreateOrGet` answers is the one that the table holds for the request id: a new
  -- row, if there was none, and otherwise the row that was there, with the table as it was.
  pub create_or_get-IsStored :
      (n : NewRun) (rows rows' : List Row) (d : DurableRun) (created : Bool)
      → create_or_get codec n rows ≡ some (rows', d, created)
      → (r : Row) × (d ≡ durable codec r) × IsStored n rows rows' r created
  create_or_get-IsStored n rows rows' d created h = elim (Bool-cases (any (asks n) rows)) [
    | inl a ↦
        let (r, f) = any-find (asks n) rows a in
        let e = some-injective (sym (known n rows r a f) ∙ h) in
        let at = ap (λ x. x.0) e in
        (
          r,
          sym (ap (λ x. x.1) e),
          record {
            found = rw (← at) f;
            present = rw (← at) a;
            how = inr (sym (ap (λ x. x.2) e), sym at);
          },
        )
    | inr a ↦ elim (Bool-cases (any (λ r. r.run_id == n.run_id) rows)) [
      | inl b ↦ let e = sym (clash n rows a b) ∙ h in ground arith
      | inr b ↦
          let e = some-injective (sym (fresh n rows a b) ∙ h) in
          let at = ap (λ x. x.0) e in
          (
            row_of n,
            sym (ap (λ x. x.1) e),
            record {
              found = rw (← at) (find-append (asks n) rows (row_of n) a (row_of-asks n));
              present = rw (← at) (any-append (asks n) rows (row_of n) (row_of-asks n));
              how = inl (sym (ap (λ x. x.2) e), a, sym at, refl);
            },
          )
    ]
  ]

  -- Once `CreateOrGet` has answered a run, every later call under the same request id answers that
  -- run, whatever else it asks for, creates nothing and leaves the table as it is.
  pub create_or_get-again :
      (n m : NewRun) (rows rows' : List Row) (d : DurableRun) (created : Bool)
      → create_or_get codec n rows ≡ some (rows', d, created)
      → m.request_id ≡ n.request_id
      → create_or_get codec m rows' ≡ some (rows', d, false)
  create_or_get-again n m rows rows' d created h same =
      let (r, e, stored) = create_or_get-IsStored n rows rows' d created h in
      rw e (
        known m rows' r
          (subst (λ id. any (λ s. s.request_id == id) rows' ≡ true) (sym same) stored.present)
          (subst (λ id. find (λ s. s.request_id == id) rows' ≡ some r) (sym same) stored.found))
