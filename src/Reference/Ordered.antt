-- ===== src/Reference/Ordered.antt =====
-- The RFC 8785 form of api/executor_locator.go does not depend on the order in which the maps of a
-- decoded document list their members.
use test_miti_check.Prelude.{
  arith, ◌≡◌, refl, sym, ap, ◌∙◌, true, false, Option, none, some, List, [], ◌∷◌, ◌++◌, Bool,
  some-injective,
}
use test_miti_check.Prelude.Options.{◌>>=◌}
use test_miti_check.Prelude.Text.{Text, text_eq, text_eq_self}
use test_miti_check.Waf.Target.{text_leb}
use test_miti_check.Waf.Ordered.{text_leb_antisym, text_leb_total, text_leb_trans}
use test_miti_check.Reference.Json.{
  Json, array, object, Items, no_items, item, Members, no_members, member, utf16, insert_entry,
  sort_entries, join, write, write_items, write_members,
}

-- Two keys that differ in UTF-16.
abbrev pub Differ : Text → Text → Type 0
Differ k l = text_eq (utf16 k) (utf16 l) ≡ false

-- The same value up to the order of the members of its objects, at every depth.
mutual
  pub data IsSame : Json → Json → Type 0 where
    itself : {v : Json} → IsSame v v
    arrays : {xs ys : Items} → AreSame xs ys → IsSame (array xs) (array ys)
    objects : {ms ns : Members} → AreReordered ms ns → IsSame (object ms) (object ns)

  pub data AreSame : Items → Items → Type 0 where
    ended : AreSame no_items no_items
    next :
        {v w : Json} {xs ys : Items} → IsSame v w → AreSame xs ys → AreSame (item v xs) (item w ys)

  pub data AreReordered : Members → Members → Type 0 where
    over : AreReordered no_members no_members
    kept :
        {k : Text} {v w : Json} {ms ns : Members}
        → IsSame v w
        → AreReordered ms ns
        → AreReordered (member k v ms) (member k w ns)
    swapped :
        {k l : Text} {v w : Json} {ms : Members}
        → Differ k l
        → AreReordered (member k v (member l w ms)) (member l w (member k v ms))
    followed : {ms ns os : Members} → AreReordered ms ns → AreReordered ns os → AreReordered ms os

apart : (s t : Text) → text_eq s t ≡ false → text_leb s t ≡ true → text_leb t s ≡ true → ⊥
apart s t n h k =
    let same = ap (text_eq s) (sym (text_leb_antisym s t h k)) ∙ text_eq_self s in ground arith

insert_entry-swap :
    (e f : Text × Text) (entries : List (Text × Text))
    → Differ (e.0) (f.0)
    → insert_entry e (insert_entry f entries) ≡ insert_entry f (insert_entry e entries)
unfolding insert_entry
insert_entry-swap e f [] d =
    let never = apart (utf16 (e.0)) (utf16 (f.0)) d in
    let total = text_leb_total (utf16 (e.0)) (utf16 (f.0)) in ground (arith, never, total)
insert_entry-swap e f (g ∷ entries) d =
    let h = insert_entry-swap e f entries d in
    let s = utf16 (e.0) in
    let t = utf16 (f.0) in
    let u = utf16 (g.0) in
    let never = apart s t d in
    let st = text_leb_trans s t u in
    let ts = text_leb_trans t s u in
    let total = text_leb_total s t in
    let total' = text_leb_total t s in ground (arith, never, st, ts, total, total')

-- The members of a map, written and sorted.
abbrev sorted : Option (List (Text × Text)) → Option (List (Text × Text))
sorted none = none
sorted (some entries) = some (sort_entries entries)

abbrev closed : Option (List (Text × Text)) → Option Text
closed none = none
closed (some entries) = some (b'{' ∷ (join true entries ++ (b'}' ∷ [])))

closed-sorted :
    (o : Option (List (Text × Text)))
    → (o >>= (λ entries. some (b'{' ∷ (join true (sort_entries entries) ++ (b'}' ∷ [])))))
      ≡ closed (sorted o)
closed-sorted none = refl
closed-sorted (some entries) = refl

abbrev with_member : Text → Option Text → Option (List (Text × Text)) → Option (List (Text × Text))
with_member k o p = o >>= (λ v. p >>= (λ r. some ((k, v) ∷ r)))

sorted-with_member :
    (k : Text) (o : Option Text) (p q : Option (List (Text × Text)))
    → sorted p ≡ sorted q
    → sorted (with_member k o p) ≡ sorted (with_member k o q)
unfolding sort_entries
sorted-with_member k none p q h = refl
sorted-with_member k (some v) none none h = refl
sorted-with_member k (some v) none (some s) h = ground arith
sorted-with_member k (some v) (some r) none h = ground arith
sorted-with_member k (some v) (some r) (some s) h =
    let same : sort_entries r ≡ sort_entries s = some-injective h in
    ap (λ t. some (insert_entry (k, v) t)) same

sorted-swap :
    (k l : Text) (o p : Option Text) (q : Option (List (Text × Text)))
    → Differ k l
    → sorted (with_member k o (with_member l p q)) ≡ sorted (with_member l p (with_member k o q))
unfolding sort_entries
sorted-swap k l none none q d = refl
sorted-swap k l none (some w) none d = refl
sorted-swap k l none (some w) (some r) d = refl
sorted-swap k l (some v) none none d = refl
sorted-swap k l (some v) none (some r) d = refl
sorted-swap k l (some v) (some w) none d = refl
sorted-swap k l (some v) (some w) (some r) d =
    ap some (insert_entry-swap (k, v) (l, w) (sort_entries r) d)

module _ (ecma : Text → Option Text) where
  mutual
    unfolding write write_items write_members

    write_same : {v w : Json} → IsSame v w → write ecma v ≡ write ecma w
    write_same itself = refl
    write_same (arrays {xs} {ys} h) = let same = items_same true h in rw same refl
    write_same (objects {ms} {ns} h) =
        closed-sorted (write_members ecma ms)
        ∙ ap closed (members_same h)
        ∙ sym (closed-sorted (write_members ecma ns))

    items_same :
        (first : Bool) {xs ys : Items}
        → AreSame xs ys
        → write_items ecma first xs ≡ write_items ecma first ys
    items_same first ended = refl
    items_same first (next h k) =
        let head = write_same h in let tail = items_same false k in rw (head, tail) refl

    members_same :
        {ms ns : Members}
        → AreReordered ms ns
        → sorted (write_members ecma ms) ≡ sorted (write_members ecma ns)
    members_same over = refl
    members_same (kept {k} {v} {w} {ms} {ns} h g) =
        ap (λ o. sorted (with_member k o (write_members ecma ms))) (write_same h)
        ∙ sorted-with_member k (write ecma w) (write_members ecma ms) (write_members ecma ns)
            (members_same g)
    members_same (swapped {k} {l} {v} {w} {ms} d) =
        sorted-swap k l (write ecma v) (write ecma w) (write_members ecma ms) d
    members_same (followed h g) = members_same h ∙ members_same g

  -- Two values that are the same up to the order of the members of their objects, at every depth,
  -- are written as the same text, or are both refused. Only members whose keys differ in UTF-16 are
  -- exchanged.
  pub write-IsSame : (v w : Json) → IsSame v w → write ecma v ≡ write ecma w
  write-IsSame v w h = write_same h
